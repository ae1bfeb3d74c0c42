-- ===== src/Connection/CallRouting/Tests.antt =====
-- Two devices that call each other, by name.
use Prim.Native.String.{compare}
use Prim.Native.Nat.{Ordering}
use ylp_software.Base.{refl, Bool, true, false, String, none, some, [], ◌⊎◌}
use ylp_software.Model.{audio, video}
use ylp_software.Connection.CallRouting.{Invitation, Marker, Services}
use ylp_software.Connection.CallRouting.Glare.{IsResolved, glare-IsResolved}

abbrev later : String → String → Bool
later a b = elim (compare a b) [ Ordering.gt ↦ true | _ ↦ false ]

abbrev services : Services
services = record { save_log = some (some "log"); new_id = "id"; direct_conversation_id = λ a b. a }

abbrev calling : String → String → Marker
calling self peer = record {
  user_id = self;
  active_call_peer_id = some peer;
  glare_accepted_peers = [];
}

abbrev ringing : String → Invitation
ringing peer = record {
  peer_id = peer;
  caller_name = "Ann";
  conversation_id = none;
  call_id = some "call";
}

glare-IsResolved_example :
    IsResolved later services services
      (calling "ann" "bea")
      (calling "bea" "ann")
      audio
      video
      (ringing "ann")
      (ringing "bea")
    ⊎ IsResolved later services services
        (calling "bea" "ann")
        (calling "ann" "bea")
        video
        audio
        (ringing "bea")
        (ringing "ann")
glare-IsResolved_example =
    glare-IsResolved later services services (calling "ann" "bea") (calling "bea" "ann") audio video
      (ringing "ann") (ringing "bea") refl (refl, refl) (refl, refl)
