-- ===== src/Connection/Signaling/Closing.antt =====
-- An adapter that its owner has disconnected.
use mathlib.Core.Path.{subst, sym}
use ylp_software.Base.{
  ℕ, ◌≡◌, Bool, true, false, ◌&&◌, String, Option, none, some, List, [], ◌∷◌, all, arith, filter,
  lookup, get_or_else, string_same, nat_same, if◌then◌else◌,
}
use ylp_software.Connection.Signaling.Socket.{
  Kind, Message, Frame, plain, idle, State, is_ice, is_negotiation, is_signaling_message,
}
use ylp_software.Connection.Signaling.Queue.{
  Cipher, dispatch, send_plain, hold_ice, send_encrypted, send_message, release_ice, flush_items,
  is_valid_ice,
}
use ylp_software.Connection.Signaling.Lifecycle.{
  fire_reconnect, Event, connected_to, socket_opened, socket_failed, socket_closed, socket_dropped,
  socket_message, sending, discarding, key_available, asking_users, reconnect_due, heartbeat_due,
  heartbeat_late, network_changed, disconnecting, step, run,
}

-- No socket, no reconnection ahead, and exactly these frames written.
pub record IsDown (written : List Frame) (s : State) : Type 0 where
  pub socket : s.socket ≡ none
  pub state : s.state ≡ idle
  pub timer : s.reconnect_timer ≡ none
  pub wire : s.wire ≡ written

dispatch-IsDown :
    (w : List Frame) (f : Frame) (now : ℕ) (kind : Kind) (to : Option String) (s : State)
    → IsDown w s
    → IsDown w (dispatch f now kind to s)
unfolding dispatch
dispatch-IsDown w f now kind to s h = ground arith

send_encrypted-IsDown :
    (w : List Frame) (o : Option String) (m : Message) (now : ℕ) (s : State)
    → IsDown w s
    → IsDown w (send_encrypted o m now s)
unfolding send_encrypted
send_encrypted-IsDown w none m now s h = unsealed (is_ice m.kind)
  where
    unsealed :
        (ice : Bool)
        → IsDown w (if ice then hold_ice (get_or_else m.to "") m now s else send_plain m now s)
    unsealed true = record { socket = h.socket; state = h.state; timer = h.timer; wire = h.wire }
    unsealed false = dispatch-IsDown w (plain m) now m.kind m.to s h
send_encrypted-IsDown w (some enc) m now s h = dispatch-IsDown w _ now m.kind _ s h

send_message-IsDown :
    (w : List Frame) (cipher : Cipher) (m : Message) (now : ℕ) (s : State)
    → IsDown w s
    → IsDown w (send_message cipher m now s)
unfolding send_message send_plain
send_message-IsDown w none m now s h = dispatch-IsDown w (plain m) now m.kind m.to s h
send_message-IsDown w (some encrypt) m now s h =
    negotiated (is_signaling_message m && is_negotiation m.kind)
  where
    negotiated :
        (b : Bool)
        → IsDown w (
            if b
            then send_encrypted (encrypt m (get_or_else m.to "")) m now s
            else send_plain m now s)
    negotiated true = send_encrypted-IsDown w (encrypt m (get_or_else m.to "")) m now s h
    negotiated false = dispatch-IsDown w (plain m) now m.kind m.to s h

release_ice-IsDown :
    (w : List Frame) (cipher : Cipher) (peer : String) (items : List (Message × ℕ)) (s : State)
    → IsDown w s
    → IsDown w (release_ice cipher peer items s)
unfolding release_ice
release_ice-IsDown w cipher peer [] s h = h
release_ice-IsDown w cipher peer ((m, created_at) ∷ items) s h =
    release_ice-IsDown w cipher peer items _ (ground arith)

flush_items-IsDown :
    (w : List Frame) (cipher : Cipher) (peer : String) (now : ℕ) (o : Option (List (Message × ℕ)))
    (s : State)
    → IsDown w s
    → IsDown w (flush_items cipher peer now o s)
flush_items-IsDown w cipher peer now none s h = h
flush_items-IsDown w cipher peer now (some []) s h = h
flush_items-IsDown w cipher peer now (some (x ∷ xs)) s h =
    let r = release_ice-IsDown w cipher peer (filter (is_valid_ice now) (x ∷ xs)) s h in
    record { socket = r.socket; state = r.state; timer = r.timer; wire = r.wire }

-- `true` for every event but a new `connect`.
abbrev pub does_not_connect : Event → Bool
does_not_connect (connected_to o b) = false
does_not_connect _ = true

fire_reconnect-IsDown :
    (w : List Frame) (b : Bool) (s : State)
    → IsDown w s
    → IsDown w (fire_reconnect s.reconnect_timer b s)
unfolding fire_reconnect
fire_reconnect-IsDown w b s h = subst (λ o. IsDown w (fire_reconnect o b s)) (sym h.timer) h

step-IsDown :
    (w : List Frame) (s : State) (e : Event)
    → does_not_connect e ≡ true
    → IsDown w s
    → IsDown w (step s e)
unfolding step
step-IsDown w s (connected_to o b) k h = ground arith
step-IsDown w s (socket_opened o i now) k h = ground arith
step-IsDown w s (socket_failed i) k h = ground arith
step-IsDown w s (socket_closed i c j) k h = ground arith
step-IsDown w s socket_dropped k h = ground arith
step-IsDown w s (socket_message i c now m) k h = ground arith
step-IsDown w s (sending c m now) k h = send_message-IsDown w c m now s h
step-IsDown w s (discarding peer) k h = ground arith
step-IsDown w s (key_available c peer now) k h =
    flush_items-IsDown w c peer now (lookup peer s.pending_ice) s h
step-IsDown w s asking_users k h = ground arith
step-IsDown w s (reconnect_due b) k h = fire_reconnect-IsDown w b s h
step-IsDown w s heartbeat_due k h = ground arith
step-IsDown w s heartbeat_late k h = ground arith
step-IsDown w s network_changed k h = ground arith
step-IsDown w s (disconnecting code) k h = ground arith

run-IsDown :
    (w : List Frame) (s : State) (es : List Event)
    → all does_not_connect es ≡ true
    → IsDown w s
    → IsDown w (run s es)
unfolding run
run-IsDown w s [] k h = h
run-IsDown w s (e ∷ es) k h =
    run-IsDown w (step s e) es (ground (arith, k)) (step-IsDown w s e (ground (arith, k)) h)

disconnect-IsDown : (code : ℕ) (s : State) → IsDown s.wire (step s (disconnecting code))
unfolding step
disconnect-IsDown code s = ground arith

-- After a disconnect in any state, whatever happens, calls, timers, and callbacks of old sockets
-- included, short of a new `connect`: the adapter is idle, has no socket and no reconnection ahead,
-- and writes nothing more.
pub disconnecting-IsDown :
    (code : ℕ) (s : State) (es : List Event)
    → all does_not_connect es ≡ true
    → IsDown s.wire (run (step s (disconnecting code)) es)
disconnecting-IsDown code s es k =
    run-IsDown s.wire (step s (disconnecting code)) es k (disconnect-IsDown code s)
