-- ===== src/Connection/Signaling/Delivery.antt =====
-- What becomes of the messages that are sent through the signaling socket.
use ylp_software.Base.{
  ℕ, ◌≡◌, refl, ◌⊎◌, inl, inr, Bool, true, false, ◌&&◌, String, Option, none, some, List, [], ◌∷◌,
  ◌++◌, length, lookup, ◌≤◌, Option-cases, lookup-insert, get_or_else, leb, arith, string_same,
  nat_same, Bool-cases, if◌then◌else◌,
}
use ylp_software.Connection.Signaling.Socket.{
  Kind, Message, Frame, plain, encrypted, Queued, State, is_connected, is_negotiation, is_ice,
  is_signaling_message,
}
use ylp_software.Connection.Signaling.Queue.{
  max_queue_size, Cipher, tail, dispatch, send_plain, send_encrypted, hold_ice, send_message,
}

-- The frame that a message travels in: sealed where there is a context and the key of the peer.
abbrev pub frame_for : Message → Option String → Frame
frame_for m none = plain m
frame_for m (some enc) =
    encrypted m.kind (get_or_else m.to "") (get_or_else m.sender "") enc m.credential

abbrev pub sealing : Cipher → Message → Option String
sealing none m = none
sealing (some encrypt) m =
    if is_signaling_message m && is_negotiation m.kind
    then encrypt m (get_or_else m.to "")
    else none

-- There is a socket, and it is open.
abbrev pub IsUp : State → Type 0
IsUp s = (i : ℕ) × (s.socket ≡ some i) × (s.is_open ≡ true)

-- The frame is put behind the queue, which loses its oldest message only if it is full.
abbrev pub IsQueued : Frame → List Queued → List Queued → Type 0
IsQueued f before after =
    (q : Queued) × (q.payload ≡ f)
    × ((after ≡ before ++ q ∷ [])
        ⊎ ((100 ≤ length before)
            × (oldest : Queued) × (older : List Queued) × (before ≡ oldest ∷ older)
            × (after ≡ older ++ q ∷ [])))

-- The message is written to the open socket, or there is none and it stands last in the queue.
abbrev pub IsCarried : Frame → State → State → Type 0
IsCarried f s t =
    (IsUp s × (t.wire ≡ s.wire ++ f ∷ []) × (t.outbound_queue ≡ s.outbound_queue))
    ⊎ ((¬ IsUp s) × (t.wire ≡ s.wire) × IsQueued f s.outbound_queue t.outbound_queue)

-- It is an ICE candidate, and stands last among those that wait for the key of their peer.
abbrev pub IsHeld : Message → ℕ → State → State → Type 0
IsHeld m now s t =
    (is_ice m.kind ≡ true)
    × (t.wire ≡ s.wire)
    × (t.outbound_queue ≡ s.outbound_queue)
    × (lookup (get_or_else m.to "") t.pending_ice
        ≡ some (get_or_else (lookup (get_or_else m.to "") s.pending_ice) [] ++ (m, now) ∷ []))

is_connected-IsUp : (s : State) → is_connected s ≡ true → IsUp s
is_connected-IsUp s h = elim (Option-cases s.socket) [
  | inl absent ↦ absurd (ground (arith, h))
  | inr (i, present) ↦ (i, present, ground (arith, h))
]

queued-IsQueued :
    (q : Queued) (qs : List Queued)
    → IsQueued q.payload qs ((if leb max_queue_size (length qs) then tail qs else qs) ++ q ∷ [])
queued-IsQueued q [] = (q, refl, inl refl)
queued-IsQueued q (x ∷ xs) = elim (Bool-cases (leb max_queue_size (length (x ∷ xs)))) [
  | inl full ↦ (q, refl, inr (ground arith, x, xs, refl, rw full refl))
  | inr room ↦ (q, refl, inl (rw room refl))
]

dispatch-IsCarried :
    (f : Frame) (now : ℕ) (kind : Kind) (to : Option String) (s : State)
    → IsCarried f s (dispatch f now kind to s)
unfolding dispatch
dispatch-IsCarried f now kind to s =
    let q : Queued = record { payload = f; created_at = now; kind = kind; to = to } in
    elim (Bool-cases (is_connected s)) [
      | inl up ↦ inl (is_connected-IsUp s up, ground arith, ground arith)
      | inr down ↦ inr (
        λ (i, present, is_open). ground (arith, down),
        ground arith,
        rw down (queued-IsQueued q s.outbound_queue),
      )
    ]

hold_ice-IsHeld :
    (m : Message) (now : ℕ) (s : State)
    → is_ice m.kind ≡ true
    → IsHeld m now s (hold_ice (get_or_else m.to "") m now s)
unfolding hold_ice
hold_ice-IsHeld m now s ice = (
  ice,
  refl,
  refl,
  ground (
    arith,
    lookup-insert (get_or_else m.to "") (get_or_else m.to "")
        (get_or_else (lookup (get_or_else m.to "") s.pending_ice) [] ++ (m, now) ∷ [])
        s.pending_ice,
    string_same.same_iff (get_or_else m.to "") (get_or_else m.to ""),
  ),
)

unsealed-IsCarried :
    (m : Message) (now : ℕ) (s : State) (ice : Bool)
    → is_ice m.kind ≡ ice
    → let t = if ice then hold_ice (get_or_else m.to "") m now s else send_plain m now s in
      IsCarried (plain m) s t ⊎ IsHeld m now s t
unfolding send_plain
unsealed-IsCarried m now s true e = inr (hold_ice-IsHeld m now s e)
unsealed-IsCarried m now s false e = inl (dispatch-IsCarried (plain m) now m.kind m.to s)

-- The message is not lost, and it is held only where its frame would not be sealed.
abbrev pub IsKept : Option String → Message → ℕ → State → State → Type 0
IsKept o m now s t = IsCarried (frame_for m o) s t ⊎ (IsHeld m now s t × (o ≡ none))

send_encrypted-IsKept :
    (o : Option String) (m : Message) (now : ℕ) (s : State)
    → IsKept o m now s (send_encrypted o m now s)
unfolding send_encrypted
send_encrypted-IsKept none m now s = elim (unsealed-IsCarried m now s (is_ice m.kind) refl) [
  | inl carried ↦ inl carried
  | inr held ↦ inr (held, refl)
]
send_encrypted-IsKept (some enc) m now s =
    inl (dispatch-IsCarried (frame_for m (some enc)) now m.kind (some (get_or_else m.to "")) s)

negotiated-IsKept :
    (b : Bool) (o : Option String) (m : Message) (now : ℕ) (s : State)
    → IsKept
        (if b then o else none)
        m
        now
        s
        (if b then send_encrypted o m now s else send_plain m now s)
unfolding send_plain
negotiated-IsKept true o m now s = send_encrypted-IsKept o m now s
negotiated-IsKept false o m now s = inl (dispatch-IsCarried (plain m) now m.kind m.to s)

-- A message that is sent is not lost. In the frame that the context and the known keys give it, it is
-- written at once if there is a socket that is open; if there is none, it stands last in the queue,
-- and the queue loses no other message than its oldest one, and that only if it is full. Or it is an
-- ICE candidate whose frame would not be sealed, and stands last among those that wait for the key
-- of their peer.
pub send_message-IsKept :
    (cipher : Cipher) (m : Message) (now : ℕ) (s : State)
    → IsKept (sealing cipher m) m now s (send_message cipher m now s)
unfolding send_message send_plain
send_message-IsKept none m now s = inl (dispatch-IsCarried (plain m) now m.kind m.to s)
send_message-IsKept (some encrypt) m now s =
    negotiated-IsKept (is_signaling_message m && is_negotiation m.kind)
      (encrypt m (get_or_else m.to "")) m now s
