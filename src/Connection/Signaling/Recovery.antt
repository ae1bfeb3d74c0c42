-- ===== src/Connection/Signaling/Recovery.antt =====
-- Lost connections, and the attempts to restore them.
use mathlib.Core.Path.{subst, sym}
use ylp_software.Base.{
  ℕ, suc, ◌+◌, ◌<◌, ◌≡◌, refl, ap, ◌∙◌, Bool, true, false, none, some, arith, nat_same, string_same,
  if◌then◌else◌,
}
use ylp_software.Connection.Signaling.Socket.{
  ConnectOptions, announced_close, reconnecting, emit, idle, connecting, State,
}
use ylp_software.Connection.Signaling.Lifecycle.{
  backoff_delay, clear_heartbeat, max_attempts, connect, on_close, try_reconnect, fire_reconnect,
  is_current_socket, socket_closed, reconnect_due, step,
}

-- A socket that is lost while no one has closed the adapter, and attempts are left.
abbrev pub IsLost : State → ConnectOptions → ℕ → Type 0
IsLost s options i =
    (is_current_socket s i ≡ true)
    × (s.manually_closed ≡ false)
    × (s.last_connect_options ≡ some options)
    × (options.auto_reconnect ≡ true)
    × (s.reconnect_attempts < max_attempts options)

-- What `onclose` leaves.
record IsRetrying (s : State) (options : ConnectOptions) (delay : ℕ) (c : State) : Type 0 where
  pub timer : c.reconnect_timer ≡ some (options, delay)
  pub down : c.state ≡ idle
  pub no_socket : c.socket ≡ none
  pub wanted : c.manually_closed ≡ false
  pub epoch : c.socket_epoch ≡ s.socket_epoch
  pub attempts : c.reconnect_attempts ≡ s.reconnect_attempts + 1
  pub queue : c.outbound_queue ≡ s.outbound_queue
  pub settled : c.settled ≡ s.settled
  pub promise : c.connect_promise ≡ s.connect_promise

try_reconnect-timer :
    (s : State) (options : ConnectOptions) (jitter : ℕ)
    → options.auto_reconnect ≡ true
    → s.reconnect_attempts < max_attempts options
    → try_reconnect (some options) jitter s
      ≡ record (emit (reconnecting (s.reconnect_attempts + 1)) s) {
        reconnect_attempts = s.reconnect_attempts + 1;
        reconnect_timer = some (options, backoff_delay options s.reconnect_attempts jitter);
      }
unfolding try_reconnect
try_reconnect-timer s options jitter a l = ground arith

-- The state in which `onclose` tries to reconnect.
abbrev left_by_close : State → State
left_by_close s = emit announced_close (record (clear_heartbeat s) { socket = none; state = idle })

on_close-try_reconnect :
    (s : State) (i jitter : ℕ) (was_clean : Bool)
    → is_current_socket s i ≡ true
    → s.manually_closed ≡ false
    → on_close i was_clean jitter s ≡ try_reconnect s.last_connect_options jitter (left_by_close s)
unfolding on_close
on_close-try_reconnect s i jitter true c m = ground arith
on_close-try_reconnect s i jitter false c m = ground arith

on_close-IsRetrying :
    (s : State) (options : ConnectOptions) (i jitter : ℕ) (was_clean : Bool)
    → IsLost s options i
    → IsRetrying s options
        (backoff_delay options s.reconnect_attempts jitter)
        (on_close i was_clean jitter s)
on_close-IsRetrying s options i jitter was_clean (c, m, l, a, n) =
    let same =
      on_close-try_reconnect s i jitter was_clean c m
      ∙ ap (λ o. try_reconnect o jitter (left_by_close s)) l
      ∙ try_reconnect-timer (left_by_close s) options jitter a n in
    subst (λ t. IsRetrying s options (backoff_delay options s.reconnect_attempts jitter) t)
      (sym same)
      (record {
        timer = refl;
        down = refl;
        no_socket = refl;
        wanted = m;
        epoch = refl;
        attempts = refl;
        queue = refl;
        settled = refl;
        promise = refl;
      })

-- What the timer's callback leaves.
record IsRedialling (c : State) (t : State) : Type 0 where
  pub state : t.state ≡ connecting
  pub socket : t.socket ≡ some (suc c.socket_epoch)
  pub attempts : t.reconnect_attempts ≡ c.reconnect_attempts
  pub queue : t.outbound_queue ≡ c.outbound_queue
  pub settled : t.settled ≡ c.settled
  pub promise : t.connect_promise ≡ some (suc c.socket_epoch)
  pub reject : t.pending_connect_reject ≡ some (suc c.socket_epoch)

connect-IsRedialling :
    (c : State) (options : ConnectOptions)
    → c.state ≡ idle
    → c.socket ≡ none
    → IsRedialling c (connect options true c)
unfolding connect
connect-IsRedialling c options i n = ground arith

fire_reconnect-wanted :
    (c : State) (options : ConnectOptions) (delay : ℕ)
    → c.manually_closed ≡ false
    → fire_reconnect (some (options, delay)) true c
      ≡ connect options true (record c { reconnect_timer = none })
unfolding fire_reconnect
fire_reconnect-wanted c options delay m =
    ap
      (λ b.
        if b
        then record c { reconnect_timer = none }
        else connect options true (record c { reconnect_timer = none }))
      m

fire_reconnect-IsRedialling :
    (s c : State) (options : ConnectOptions) (delay : ℕ)
    → IsRetrying s options delay c
    → IsRedialling c (fire_reconnect c.reconnect_timer true c)
fire_reconnect-IsRedialling s c options delay r =
    let again =
      connect-IsRedialling (record c { reconnect_timer = none }) options r.down r.no_socket in
    let same =
      ap (λ o. fire_reconnect o true c) r.timer ∙ fire_reconnect-wanted c options delay r.wanted in
    subst (λ t. IsRedialling c t) (sym same)
      (record {
        state = again.state;
        socket = again.socket;
        attempts = again.attempts;
        queue = again.queue;
        settled = again.settled;
        promise = again.promise;
        reject = again.reject;
      })

current-epoch : (s : State) (i : ℕ) → is_current_socket s i ≡ true → s.socket_epoch ≡ i
current-epoch s i c = ground arith

-- When a socket closes that the adapter has not closed itself, and attempts are left, a timer is
-- set; when it fires, the adapter is connecting through a new socket, one attempt is counted, and
-- the queue is as it was.
pub socket_closed-reconnect_due :
    (s : State) (options : ConnectOptions) (i jitter : ℕ) (was_clean : Bool)
    → IsLost s options i
    → let c = step s (socket_closed i was_clean jitter) in
      let t = step c (reconnect_due true) in
      (c.reconnect_timer ≡ some (options, backoff_delay options s.reconnect_attempts jitter))
      × (t.state ≡ connecting)
      × (t.socket ≡ some (suc i))
      × (t.reconnect_attempts ≡ s.reconnect_attempts + 1)
      × (t.outbound_queue ≡ s.outbound_queue)
unfolding step
socket_closed-reconnect_due s options i jitter was_clean lost =
    let c = on_close i was_clean jitter s in
    let r = on_close-IsRetrying s options i jitter was_clean lost in
    let f = fire_reconnect-IsRedialling s c options _ r in
    let e = r.epoch ∙ current-epoch s i lost.0 in
    (
      r.timer,
      f.state,
      f.socket ∙ ap (λ n. some (suc n)) e,
      f.attempts ∙ r.attempts,
      f.queue ∙ r.queue,
    )

-- When the socket closes, cleanly or not, before the promise of its `connect` is settled, that
-- promise is neither resolved nor rejected; the connection that the timer makes has a promise of
-- its own, and the adapter has forgotten the first.
pub socket_closed-settled :
    (s : State) (options : ConnectOptions) (i jitter : ℕ) (was_clean : Bool)
    → IsLost s options i
    → s.connect_promise ≡ some i
    → let c = step s (socket_closed i was_clean jitter) in
      let t = step c (reconnect_due true) in
      (c.settled ≡ s.settled)
      × (c.connect_promise ≡ some i)
      × (t.settled ≡ s.settled)
      × (t.connect_promise ≡ some (suc i))
      × (t.pending_connect_reject ≡ some (suc i))
unfolding step
socket_closed-settled s options i jitter was_clean lost p =
    let c = on_close i was_clean jitter s in
    let r = on_close-IsRetrying s options i jitter was_clean lost in
    let f = fire_reconnect-IsRedialling s c options _ r in
    let e = r.epoch ∙ current-epoch s i lost.0 in
    (
      r.settled,
      r.promise ∙ p,
      f.settled ∙ r.settled,
      f.promise ∙ ap (λ n. some (suc n)) e,
      f.reject ∙ ap (λ n. some (suc n)) e,
    )
