-- ===== src/Connection/Signaling/Attempts.antt =====
-- The number of attempts to reconnect.
use ylp_software.Base.{
  ℕ, ◌≤◌, ◌≡◌, refl, Bool, true, false, ◌&&◌, String, Option, none, some, List, [], ◌∷◌, All, arith,
  lookup, filter, get_or_else, is_some, string_same, if◌then◌else◌,
}
use ylp_software.Connection.Signaling.Socket.{
  Kind, Message, Frame, plain, idle, announced_close, received, emit, ConnectOptions, State, is_ice,
  is_negotiation, is_signaling_message,
}
use ylp_software.Connection.Signaling.Queue.{
  Cipher, dispatch, send_plain, hold_ice, send_encrypted, send_message, release_ice, flush_items,
  flush_pending_ice, is_valid_ice,
}
use ylp_software.Connection.Signaling.Lifecycle.{
  clear_heartbeat, reject_connect, is_current_socket, max_attempts, connect, on_close,
  try_reconnect, fire_reconnect, handle_incoming_message, Incoming, pong, ping, raw, users,
  signaling, forwarded, Event, connected_to, socket_opened, socket_failed, socket_closed,
  socket_dropped, socket_message, sending, discarding, key_available, asking_users, reconnect_due,
  heartbeat_due, heartbeat_late, network_changed, disconnecting, step, run,
}

abbrev pub AllowsAtMost : ℕ → Option ConnectOptions → Type 0
AllowsAtMost n none = Unit
AllowsAtMost n (some options) = max_attempts options ≤ n

abbrev pub timed_options : Option (ConnectOptions × ℕ) → Option ConnectOptions
timed_options none = none
timed_options (some (options, delay)) = some options

-- At most `n` attempts are counted, and no options that the adapter keeps allow more.
pub record IsWithin (n : ℕ) (s : State) : Type 0 where
  pub attempts : s.reconnect_attempts ≤ n
  pub last : AllowsAtMost n s.last_connect_options
  pub timed : AllowsAtMost n (timed_options s.reconnect_timer)

-- A `connect` is not asked for more than `n` attempts.
abbrev pub AsksAtMost : ℕ → Event → Type 0
AsksAtMost n (connected_to options b) = max_attempts options ≤ n
AsksAtMost n _ = Unit

-- The fields that the counting reads are the same.
record IsSameCount (s t : State) : Type 0 where
  pub attempts : t.reconnect_attempts ≡ s.reconnect_attempts
  pub last : t.last_connect_options ≡ s.last_connect_options
  pub timer : t.reconnect_timer ≡ s.reconnect_timer

IsWithin-same : (n : ℕ) (s t : State) → IsSameCount s t → IsWithin n s → IsWithin n t
IsWithin-same n s t c h = record {
  attempts = rw c.attempts h.attempts;
  last = rw c.last h.last;
  timed = rw c.timer h.timed;
}

dispatch-IsSameCount :
    (f : Frame) (now : ℕ) (kind : Kind) (to : Option String) (s : State)
    → IsSameCount s (dispatch f now kind to s)
unfolding dispatch
dispatch-IsSameCount f now kind to s = ground arith

send_encrypted-IsSameCount :
    (o : Option String) (m : Message) (now : ℕ) (s : State)
    → IsSameCount s (send_encrypted o m now s)
unfolding send_encrypted
send_encrypted-IsSameCount none m now s = unsealed (is_ice m.kind)
  where
    unsealed :
        (ice : Bool)
        → IsSameCount s (if ice then hold_ice (get_or_else m.to "") m now s else send_plain m now s)
    unsealed true = record { attempts = refl; last = refl; timer = refl }
    unsealed false = dispatch-IsSameCount (plain m) now m.kind m.to s
send_encrypted-IsSameCount (some enc) m now s = dispatch-IsSameCount _ now m.kind _ s

send_message-IsSameCount :
    (cipher : Cipher) (m : Message) (now : ℕ) (s : State)
    → IsSameCount s (send_message cipher m now s)
unfolding send_message send_plain
send_message-IsSameCount none m now s = dispatch-IsSameCount (plain m) now m.kind m.to s
send_message-IsSameCount (some encrypt) m now s =
    negotiated (is_signaling_message m && is_negotiation m.kind)
  where
    negotiated :
        (b : Bool)
        → IsSameCount s (
            if b
            then send_encrypted (encrypt m (get_or_else m.to "")) m now s
            else send_plain m now s)
    negotiated true = send_encrypted-IsSameCount (encrypt m (get_or_else m.to "")) m now s
    negotiated false = dispatch-IsSameCount (plain m) now m.kind m.to s

release_ice-IsSameCount :
    (cipher : Cipher) (peer : String) (items : List (Message × ℕ)) (s t : State)
    → IsSameCount s t
    → IsSameCount s (release_ice cipher peer items t)
unfolding release_ice
release_ice-IsSameCount cipher peer [] s t h = h
release_ice-IsSameCount cipher peer ((m, created_at) ∷ items) s t h =
    release_ice-IsSameCount cipher peer items s _ (ground arith)

flush_pending_ice-IsSameCount :
    (cipher : Cipher) (peer : String) (now : ℕ) (s : State)
    → IsSameCount s (flush_pending_ice cipher peer now s)
unfolding flush_pending_ice
flush_pending_ice-IsSameCount cipher peer now s = flushed (lookup peer s.pending_ice)
  where
    flushed : (o : Option (List (Message × ℕ))) → IsSameCount s (flush_items cipher peer now o s)
    flushed none = record { attempts = refl; last = refl; timer = refl }
    flushed (some []) = record { attempts = refl; last = refl; timer = refl }
    flushed (some (x ∷ xs)) =
        let r =
          release_ice-IsSameCount cipher peer (filter (is_valid_ice now) (x ∷ xs)) s s
            (record { attempts = refl; last = refl; timer = refl }) in
        record { attempts = r.attempts; last = r.last; timer = r.timer }

connect-IsWithin :
    (n : ℕ) (options : ConnectOptions) (b : Bool) (s : State)
    → max_attempts options ≤ n
    → IsWithin n s
    → IsWithin n (connect options b s)
unfolding connect
connect-IsWithin n options b s m h = ground arith

try_reconnect-IsWithin :
    (n jitter : ℕ) (o : Option ConnectOptions) (s : State)
    → AllowsAtMost n o
    → IsWithin n s
    → IsWithin n (try_reconnect o jitter s)
unfolding try_reconnect
try_reconnect-IsWithin n jitter none s m h = h
try_reconnect-IsWithin n jitter (some options) s m h = ground arith

fire_reconnect-IsWithin :
    (n : ℕ) (b : Bool) (o : Option (ConnectOptions × ℕ)) (s : State)
    → AllowsAtMost n (timed_options o)
    → IsWithin n s
    → IsWithin n (fire_reconnect o b s)
unfolding fire_reconnect
fire_reconnect-IsWithin n b none s m h = h
fire_reconnect-IsWithin n b (some (options, delay)) s m h = ground (
  arith,
  connect-IsWithin n options b (record s { reconnect_timer = none }) m
      (record { attempts = h.attempts; last = h.last; timed = tt }),
)

-- The state in which `onclose` may try to reconnect.
abbrev after_close : ℕ → Bool → State → State
after_close i was_clean s =
    let c = emit announced_close (record (clear_heartbeat s) { socket = none; state = idle }) in
    if was_clean then c else reject_connect i c

after_close-IsWithin :
    (n i : ℕ) (was_clean : Bool) (s : State) → IsWithin n s → IsWithin n (after_close i was_clean s)
unfolding reject_connect
after_close-IsWithin n i was_clean s h = ground arith

on_close-IsWithin :
    (n i jitter : ℕ) (was_clean : Bool) (s : State)
    → IsWithin n s
    → IsWithin n (on_close i was_clean jitter s)
unfolding on_close
on_close-IsWithin n i jitter was_clean s h =
    let r = after_close i was_clean s in
    let k = after_close-IsWithin n i was_clean s h in
    let t = try_reconnect-IsWithin n jitter r.last_connect_options r k.last k in
    chosen (is_current_socket s i) s.manually_closed k t
  where
    chosen :
        (current manually : Bool) {r t : State}
        → IsWithin n r
        → IsWithin n t
        → IsWithin n (if current then if manually then r else t else s)
    chosen true true k t = k
    chosen true false k t = t
    chosen false m k t = h

handle_incoming_message-IsWithin :
    (n now : ℕ) (cipher : Cipher) (m : Incoming) (s : State)
    → IsWithin n s
    → IsWithin n (handle_incoming_message cipher now m s)
unfolding handle_incoming_message
handle_incoming_message-IsWithin n now cipher pong s h = ground arith
handle_incoming_message-IsWithin n now cipher ping s h = ground arith
handle_incoming_message-IsWithin n now cipher raw s h = ground arith
handle_incoming_message-IsWithin n now cipher users s h = ground arith
handle_incoming_message-IsWithin n now cipher (forwarded m) s h = ground arith
handle_incoming_message-IsWithin n now cipher (signaling m b) s h =
    let peer = get_or_else m.sender "" in
    received_within (b && is_some cipher) (
      IsWithin-same n s (flush_pending_ice cipher peer now s)
        (flush_pending_ice-IsSameCount cipher peer now s) h)
  where
    received_within :
        (k : Bool)
        → IsWithin n (flush_pending_ice cipher (get_or_else m.sender "") now s)
        → IsWithin n (
            emit
              (received m)
              (if k then flush_pending_ice cipher (get_or_else m.sender "") now s else s))
    received_within true f = record { attempts = f.attempts; last = f.last; timed = f.timed }
    received_within false f = record { attempts = h.attempts; last = h.last; timed = h.timed }

step-IsWithin :
    (n : ℕ) (s : State) (e : Event) → AsksAtMost n e → IsWithin n s → IsWithin n (step s e)
unfolding step
step-IsWithin n s (connected_to o b) k h = connect-IsWithin n o b s k h
step-IsWithin n s (socket_opened o i now) k h = ground arith
step-IsWithin n s (socket_failed i) k h = ground arith
step-IsWithin n s (socket_closed i c j) k h = on_close-IsWithin n i j c s h
step-IsWithin n s socket_dropped k h = ground arith
step-IsWithin n s (socket_message i c now m) k h =
    ground (arith, handle_incoming_message-IsWithin n now c m s h)
step-IsWithin n s (sending c m now) k h =
    IsWithin-same n s (send_message c m now s) (send_message-IsSameCount c m now s) h
step-IsWithin n s (discarding peer) k h = ground arith
step-IsWithin n s (key_available c peer now) k h =
    IsWithin-same n s (flush_pending_ice c peer now s) (flush_pending_ice-IsSameCount c peer now s)
      h
step-IsWithin n s asking_users k h = ground arith
step-IsWithin n s (reconnect_due b) k h = fire_reconnect-IsWithin n b s.reconnect_timer s h.timed h
step-IsWithin n s heartbeat_due k h = ground arith
step-IsWithin n s heartbeat_late k h = ground arith
step-IsWithin n s network_changed k h = ground arith
step-IsWithin n s (disconnecting code) k h = ground arith

-- Whatever happens to an adapter whose owner never asks for more than `n` attempts to reconnect
-- (8 where nothing is asked for), at most `n` are counted.
pub run-IsWithin :
    (n : ℕ) (s : State) (es : List Event)
    → All (AsksAtMost n) es
    → IsWithin n s
    → IsWithin n (run s es)
unfolding run
run-IsWithin n s [] k h = h
run-IsWithin n s (e ∷ es) (k, ks) h = run-IsWithin n (step s e) es ks (step-IsWithin n s e k h)
