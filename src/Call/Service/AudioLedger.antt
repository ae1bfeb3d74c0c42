-- ===== src/Call/Service/AudioLedger.antt =====
-- The audio of the device along a run of `CallService`.
pub mod Runs
use ylp_software.Base.{
  string_same, ap, sym, ◌∙◌, ◌++◌, ◌≡◌, refl, ℕ, Bool, true, false, not, ◌&&◌, String, Option, none,
  some, List, [], ◌∷◌, arith, contains, add, delete, if◌then◌else◌,
}
use ylp_software.Model.{CallType, audio, video}
use ylp_software.Call.Audio.{
  AudioRoute, Device, silent, set_audio_route, start_audio_session, stop_audio_session,
  release_audio, DeviceEvent, wired_headset, bluetooth_headset, proximity, speaker_toggled,
  on_device_event, on_wired_headset, on_bluetooth_headset, on_proximity, toggle_speaker,
  update_available_routes,
}

abbrev pub is_empty : List String → Bool
is_empty [] = true
is_empty (_ ∷ _) = false

-- The audio session, the screen and the listeners are on together, and only for an owner.
pub record IsOwned (d : Device) : Type 0 where
  pub screen : d.keep_screen_on ≡ d.in_call
  pub listeners : d.has_subscriptions ≡ d.in_call
  pub owner : d.in_call && is_empty d.audio_session_peers ≡ false

-- A change of the route only.
IsOwned-route :
    (d e : Device)
    → e.in_call ≡ d.in_call
    → e.keep_screen_on ≡ d.keep_screen_on
    → e.has_subscriptions ≡ d.has_subscriptions
    → e.audio_session_peers ≡ d.audio_session_peers
    → IsOwned d
    → IsOwned e
IsOwned-route d e p q r s h = record {
  screen = q ∙ h.screen ∙ sym p;
  listeners = r ∙ h.listeners ∙ sym p;
  owner =
      ap (λ b. b && is_empty e.audio_session_peers) p
      ∙ ap (λ ps. d.in_call && is_empty ps) s
      ∙ h.owner;
}

pub on_device_event-IsOwned :
    (e : DeviceEvent) (d : Device) → IsOwned d → IsOwned (on_device_event e d)
unfolding on_device_event on_wired_headset on_bluetooth_headset on_proximity toggle_speaker
    set_audio_route update_available_routes
on_device_event-IsOwned (wired_headset b) d h =
    IsOwned-route d (on_device_event (wired_headset b) d) (ground arith) (ground arith)
      (ground arith) (ground arith) h
on_device_event-IsOwned (bluetooth_headset b) d h =
    IsOwned-route d (on_device_event (bluetooth_headset b) d) (ground arith) (ground arith)
      (ground arith) (ground arith) h
on_device_event-IsOwned (proximity b) d h =
    IsOwned-route d (on_device_event (proximity b) d) (ground arith) (ground arith) (ground arith)
      (ground arith) h
on_device_event-IsOwned speaker_toggled d h =
    IsOwned-route d (on_device_event speaker_toggled d) refl refl refl refl h

is_empty-append : (s : List String) (a : String) → is_empty (s ++ a ∷ []) ≡ false
is_empty-append [] a = refl
is_empty-append (x ∷ s) a = refl

is_empty-add : (s : List String) (a : String) → is_empty (add s a) ≡ false
is_empty-add [] a = refl
is_empty-add (x ∷ s) a = ground (arith, is_empty-append s a)

pub start_audio_session-IsOwned :
    (type : CallType) (peer : String) (d : Device) → IsOwned (start_audio_session type peer d)
unfolding start_audio_session set_audio_route
start_audio_session-IsOwned type peer d = record {
  screen = ground arith;
  listeners = ground arith;
  owner = ground (arith, is_empty-add d.audio_session_peers peer);
}

pub release_audio-IsOwned :
    (peer : String) (d : Device) → IsOwned d → IsOwned (release_audio peer d)
unfolding release_audio stop_audio_session
release_audio-IsOwned peer d h = record {
  screen = ground (arith, h.screen);
  listeners = ground (arith, h.listeners);
  owner = ground (arith, h.owner);
}
