-- ===== src/Connection/Signaling/Bounded.antt =====
-- The bound on the queue of the signaling socket.
use ylp_software.Base.{
  ℕ, ◌+◌, ◌≤◌, ◌≡◌, refl, Bool, true, false, not, ◌&&◌, is_some, String, Option, none, some, List,
  [], ◌∷◌, ◌++◌, length, length-append, length-filter-le, get_or_else, leb, all, arith, string_same,
  nat_same, if◌then◌else◌,
}
use ylp_software.Connection.Signaling.Socket.{
  Kind, Message, Frame, plain, Queued, ConnectOptions, State,
}
use ylp_software.Connection.Signaling.Queue.{
  max_queue_size, Cipher, tail, enqueue_message, dispatch, send_plain, send_encrypted, hold_ice,
  send_message, is_stale_negotiation,
}
use ylp_software.Connection.Signaling.Lifecycle.{
  connect, fire_reconnect, pong, ping, raw, users, signaling, forwarded, Event, connected_to,
  socket_opened, socket_failed, socket_closed, socket_dropped, socket_message, sending, discarding,
  key_available, asking_users, reconnect_due, heartbeat_due, heartbeat_late, network_changed,
  disconnecting, step, run,
}
use ylp_software.Connection.Signaling.Delivery.{frame_for}

-- `true` where the event tells the adapter of no key.
abbrev pub keeps_ice : Event → Bool
keeps_ice (key_available cipher peer now) = false
keeps_ice (socket_message i cipher now (signaling m brings_key)) =
    not (brings_key && is_some cipher)
keeps_ice _ = true

abbrev pub IsQueueBounded : State → Type 0
IsQueueBounded s = length s.outbound_queue ≤ max_queue_size

length-tail : (qs : List Queued) → length (tail qs) + 1 ≤ length qs + 1
length-tail [] = omega arith
length-tail (q ∷ qs) = omega arith

enqueue_message-IsQueueBounded :
    (q : Queued) (s : State) → IsQueueBounded s → IsQueueBounded (enqueue_message q s)
unfolding enqueue_message
enqueue_message-IsQueueBounded q s h = bounded s.outbound_queue h
  where
    bounded :
        (qs : List Queued)
        → length qs ≤ max_queue_size
        → length ((if leb max_queue_size (length qs) then tail qs else qs) ++ q ∷ [])
          ≤ max_queue_size
    bounded [] h = omega arith
    bounded (x ∷ xs) h = ground (arith, length-append xs (q ∷ []), length-append (x ∷ xs) (q ∷ []))

dispatch-IsQueueBounded :
    (f : Frame) (now : ℕ) (kind : Kind) (to : Option String) (s : State)
    → IsQueueBounded s
    → IsQueueBounded (dispatch f now kind to s)
unfolding dispatch
dispatch-IsQueueBounded f now kind to s h = ground (
  arith,
  enqueue_message-IsQueueBounded (record { payload = f; created_at = now; kind = kind; to = to }) s
      h,
)

send_encrypted-IsQueueBounded :
    (o : Option String) (m : Message) (now : ℕ) (s : State)
    → IsQueueBounded s
    → IsQueueBounded (send_encrypted o m now s)
unfolding send_encrypted send_plain hold_ice
send_encrypted-IsQueueBounded none m now s h =
    ground (arith, dispatch-IsQueueBounded (plain m) now m.kind m.to s h)
send_encrypted-IsQueueBounded (some enc) m now s h =
    dispatch-IsQueueBounded (frame_for m (some enc)) now m.kind (some (get_or_else m.to "")) s h

send_message-IsQueueBounded :
    (cipher : Cipher) (m : Message) (now : ℕ) (s : State)
    → IsQueueBounded s
    → IsQueueBounded (send_message cipher m now s)
unfolding send_message send_plain
send_message-IsQueueBounded none m now s h = dispatch-IsQueueBounded (plain m) now m.kind m.to s h
send_message-IsQueueBounded (some encrypt) m now s h = ground (
  arith,
  dispatch-IsQueueBounded (plain m) now m.kind m.to s h,
  send_encrypted-IsQueueBounded (encrypt m (get_or_else m.to "")) m now s h,
)

fire_reconnect-outbound_queue :
    (o : Option (ConnectOptions × ℕ)) (b : Bool) (s : State)
    → (fire_reconnect o b s).outbound_queue ≡ s.outbound_queue
unfolding fire_reconnect connect
fire_reconnect-outbound_queue none b s = refl
fire_reconnect-outbound_queue (some (o, d)) b s = ground arith

step-IsQueueBounded :
    (s : State) (e : Event) → keeps_ice e ≡ true → IsQueueBounded s → IsQueueBounded (step s e)
unfolding step
step-IsQueueBounded s (connected_to o b) k h = ground arith
step-IsQueueBounded s (socket_opened o i now) k h = ground arith
step-IsQueueBounded s (socket_failed i) k h = ground arith
step-IsQueueBounded s (socket_closed i c j) k h = ground arith
step-IsQueueBounded s socket_dropped k h = ground arith
step-IsQueueBounded s (socket_message i c now pong) k h = ground arith
step-IsQueueBounded s (socket_message i c now ping) k h = ground arith
step-IsQueueBounded s (socket_message i c now raw) k h = ground arith
step-IsQueueBounded s (socket_message i c now users) k h = ground arith
step-IsQueueBounded s (socket_message i c now (signaling m b)) k h = ground arith
step-IsQueueBounded s (socket_message i c now (forwarded m)) k h = ground arith
step-IsQueueBounded s (sending c m now) k h = send_message-IsQueueBounded c m now s h
step-IsQueueBounded s (discarding peer) k h =
    ground (arith, length-filter-le (λ q. not (is_stale_negotiation peer q)) s.outbound_queue)
step-IsQueueBounded s (key_available c peer now) k h = ground arith
step-IsQueueBounded s asking_users k h = ground arith
step-IsQueueBounded s (reconnect_due b) k h =
    ground (arith, fire_reconnect-outbound_queue s.reconnect_timer b s)
step-IsQueueBounded s heartbeat_due k h = ground arith
step-IsQueueBounded s heartbeat_late k h = ground arith
step-IsQueueBounded s network_changed k h = ground arith
step-IsQueueBounded s (disconnecting code) k h = ground arith

-- From a queue of at most 100 messages, and through every list of events in which the adapter is
-- told of no key of a peer, neither directly nor, while there is an encryption context, by an incoming
-- signaling message that brings one, the queue holds at most 100 messages.
pub run-IsQueueBounded :
    (s : State) (es : List Event)
    → all keeps_ice es ≡ true
    → IsQueueBounded s
    → IsQueueBounded (run s es)
unfolding run
run-IsQueueBounded s [] k h = h
run-IsQueueBounded s (e ∷ es) k h =
    run-IsQueueBounded (step s e) es (ground (arith, k))
      (step-IsQueueBounded s e (ground (arith, k)) h)
