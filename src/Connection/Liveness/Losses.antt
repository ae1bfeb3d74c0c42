-- ===== src/Connection/Liveness/Losses.antt =====
-- The reports of the monitor: a peer that stays silent is lost once.
use ylp_software.Base.{
  ℕ, zero, suc, ◌+◌, ◌≤◌, ◌≡◌, Bool, true, false, some, List, [], ◌∷◌, ◌++◌, arith, all,
  if◌then◌else◌, length, filter,
}
use ylp_software.Connection.Liveness.{
  Effect, sent_ping, sent_pong, lost, restored, State, ping_interval_ms, Event, started, stopped,
  ping_due, pong_timeout, ping_received, pong_received, restarting, step, run,
}

abbrev pub is_lost : Effect → Bool
is_lost lost = true
is_lost _ = false

abbrev pub is_restored : Effect → Bool
is_restored restored = true
is_restored _ = false

abbrev pub count : (Effect → Bool) → List Effect → ℕ
count p xs = length (filter p xs)

count-append :
    (p : Effect → Bool) (xs : List Effect) (e : Effect)
    → count p (xs ++ e ∷ []) ≡ count p xs + (if p e then 1 else 0)
count-append p [] e = ground arith
count-append p (x ∷ xs) e = ground (arith, count-append p xs e)

abbrev pub one_if : Bool → ℕ
one_if b = if b then 1 else 0

-- `true` for what happens between a start and the stop that ends it.
abbrev pub is_inner : Event → Bool
is_inner started = false
is_inner stopped = false
is_inner _ = true

-- The losses reported since the first state, and not taken back by a later report, are those of a
-- link that counts as degraded.
abbrev pub IsBalanced : State → State → Type 0
IsBalanced z s =
    count is_lost s.effects + count is_restored z.effects
    ≤ count is_restored s.effects + count is_lost z.effects + one_if s.is_degraded

step-IsBalanced :
    (z s : State) (e : Event) → is_inner e ≡ true → IsBalanced z s → IsBalanced z (step s e)
unfolding step
step-IsBalanced z s started i h = ground arith
step-IsBalanced z s stopped i h = ground arith
step-IsBalanced z s (ping_due b) i h = ground (
  arith,
  count-append is_lost s.effects (sent_ping (suc s.nonce)),
  count-append is_restored s.effects (sent_ping (suc s.nonce)),
)
step-IsBalanced z s pong_timeout i h =
    ground (arith, count-append is_lost s.effects lost, count-append is_restored s.effects lost)
step-IsBalanced z s (ping_received b n) i h = ground (
  arith,
  count-append is_lost s.effects (sent_pong n),
  count-append is_restored s.effects (sent_pong n),
)
step-IsBalanced z s pong_received i h =
    ground
      (arith, count-append is_lost s.effects restored, count-append is_restored s.effects restored)
step-IsBalanced z s (restarting n) i h = ground arith

inner-IsBalanced :
    (z s : State) (es : List Event)
    → IsBalanced z s
    → all is_inner es ≡ true
    → IsBalanced z (run s es)
unfolding run
inner-IsBalanced z s [] h a = h
inner-IsBalanced z s (e ∷ es) h a =
    inner-IsBalanced z (step s e) es (step-IsBalanced z s e (ground (arith, a)) h)
      (ground (arith, a))

started-IsBalanced : (s : State) → IsBalanced s (step s started)
unfolding step
started-IsBalanced s = ground arith

-- From a start in any state, and until the monitor is stopped or started again, whatever happens: the
-- losses reported since the start are at most one more than the recoveries reported since, and not
-- one more unless the link counts as degraded, so that no loss is reported twice.
pub run-IsBalanced :
    (s : State) (es : List Event) → all is_inner es ≡ true → IsBalanced s (run (step s started) es)
run-IsBalanced s es a = inner-IsBalanced s (step s started) es (started-IsBalanced s) a

-- `n` pings in a row that nobody answers.
abbrev pub silence : Bool → ℕ → List Event
silence sends zero = []
silence sends (suc n) = ping_due sends ∷ pong_timeout ∷ silence sends n

-- A degraded monitor that is about to ping.
record IsChasing (k : ℕ) (s : State) : Type 0 where
  pub degraded : s.is_degraded ≡ true
  pub at_once : s.ping_timer ≡ some 0
  pub losses : count is_lost s.effects ≡ k

chase :
    (sends : Bool) (k : ℕ) (s : State)
    → IsChasing k s
    → IsChasing k (step (step s (ping_due sends)) pong_timeout)
unfolding step
chase sends k s h = ground (arith, count-append is_lost s.effects (sent_ping (suc s.nonce)))

silence-IsChasing :
    (sends : Bool) (n k : ℕ) (s : State) → IsChasing k s → IsChasing k (run s (silence sends n))
unfolding run
silence-IsChasing sends zero k s h = h
silence-IsChasing sends (suc n) k s h =
    silence-IsChasing sends n k (step (step s (ping_due sends)) pong_timeout) (chase sends k s h)

-- A monitor after the first pong it missed.
record IsAlarmed (k : ℕ) (s : State) : Type 0 where
  pub degraded : s.is_degraded ≡ false
  pub missed : s.missed_pongs ≡ 1
  pub timed : s.ping_timer ≡ some ping_interval_ms
  pub losses : count is_lost s.effects ≡ k

first_miss :
    (sends : Bool) (s : State)
    → IsAlarmed
        (count is_lost s.effects)
        (step (step (step s started) (ping_due sends)) pong_timeout)
unfolding step
first_miss sends s = ground (arith, count-append is_lost s.effects (sent_ping (suc s.nonce)))

second_miss :
    (sends : Bool) (k : ℕ) (s : State)
    → IsAlarmed k s
    → IsChasing (suc k) (step (step s (ping_due sends)) pong_timeout)
unfolding step
second_miss sends k s h = ground (
  arith,
  count-append is_lost s.effects (sent_ping (suc s.nonce)),
  count-append is_lost s.effects lost,
  count-append is_lost (s.effects ++ sent_ping (suc s.nonce) ∷ []) lost,
)

begin_chase :
    (sends : Bool) (s : State)
    → IsChasing (suc (count is_lost s.effects)) (run s (started ∷ silence sends 2))
unfolding run
begin_chase sends s =
    second_miss sends (count is_lost s.effects)
      (step (step (step s started) (ping_due sends)) pong_timeout) (first_miss sends s)

-- What a silent peer leads to.
pub record IsLostOnce (before after : State) : Type 0 where
  pub degraded : after.is_degraded ≡ true
  pub at_once : after.ping_timer ≡ some 0
  pub once : count is_lost after.effects ≡ suc (count is_lost before.effects)

abbrev chase_result :
    (before after : State)
    → IsChasing (suc (count is_lost before.effects)) after
    → IsLostOnce before after
chase_result before after h = record { degraded = h.degraded; at_once = h.at_once; once = h.losses }

-- A monitor that is started in any state and whose pings are then answered by nobody, two times or
-- more, sent or not, has reported the loss of the peer exactly once, counts the link as degraded,
-- and has the next ping due at once.
pub silence-IsLostOnce :
    (sends : Bool) (n : ℕ) (s : State)
    → IsLostOnce s (run (run s (started ∷ silence sends 2)) (silence sends n))
silence-IsLostOnce sends n s =
    chase_result s (run (run s (started ∷ silence sends 2)) (silence sends n)) (
      silence-IsChasing sends n (suc (count is_lost s.effects)) (run s (started ∷ silence sends 2))
        (begin_chase sends s))
