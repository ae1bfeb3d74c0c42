-- ===== src/Sync/Service/Retries.antt =====
-- The delays of the retries, and their number.
use ylp_software.Base.{leb, if◌then◌else◌, ℕ, zero, suc, ◌≤◌, ◌<◌, ◌≡◌, List, [], ◌∷◌, arith, All}
use ylp_software.Sync.Service.{
  SyncStatus, Outcome, State, Event, sync_now, finished, timer_fired, completed, conflict,
  not_found, reset_failed, other_error, pulled, connectivity, cleanup, RetryTimer, armed, emit,
  base_delay, retry_delay, schedule_retry, step, run, max_attempts,
}

base_delay-le : (n : ℕ) → n < 5 → (1000 ≤ base_delay n) × (base_delay n ≤ 10498)
unfolding base_delay
base_delay-le zero h = omega arith
base_delay-le (suc zero) h = omega arith
base_delay-le (suc (suc zero)) h = omega arith
base_delay-le (suc (suc (suc zero))) h = omega arith
base_delay-le (suc (suc (suc (suc zero)))) h = omega arith
base_delay-le (suc (suc (suc (suc (suc n))))) h = absurd (omega arith)

retry_delay_bounds :
    (n jitter : ℕ)
    → n < 5
    → 800 ≤ jitter
    → jitter ≤ 1200
    → (800 ≤ retry_delay n jitter) × (retry_delay n jitter ≤ 12598)
unfolding retry_delay
retry_delay_bounds n jitter h l u = grind (arith, base_delay-le n h)

abbrev pub InRange : RetryTimer → Type 0
InRange (armed d) = (800 ≤ d) × (d ≤ 12598)
InRange _ = Unit

-- The number of attempts and the armed delay are in range.
pub record HasBoundedRetries (s : State) : Type 0 where
  pub attempts : s.retry_attempts ≤ max_attempts
  pub delay : InRange s.retry_timer

-- The random factors of an event are those of `0.8 + Math.random() * 0.4`.
abbrev pub HasJitter : Event → Type 0
HasJitter (finished outcome jitter) = (800 ≤ jitter) × (jitter ≤ 1200)
HasJitter _ = Unit

emit-fields :
    (e : SyncStatus) (s : State)
    → ((emit e s).is_syncing ≡ s.is_syncing)
      × ((emit e s).retry_attempts ≡ s.retry_attempts)
      × ((emit e s).retry_timer ≡ s.retry_timer)
      × ((emit e s).last_pulled_at ≡ s.last_pulled_at)
      × ((emit e s).has_migration_keys ≡ s.has_migration_keys)
unfolding emit
emit-fields e s = ground arith

schedule_retry-bounded :
    (jitter : ℕ) (s : State)
    → 800 ≤ jitter
    → jitter ≤ 1200
    → HasBoundedRetries s
    → HasBoundedRetries (schedule_retry jitter s)
unfolding schedule_retry
schedule_retry-bounded jitter s l u h = ground (arith, retry_delay_bounds s.retry_attempts jitter)

step-HasBoundedRetries :
    (s : State) (e : Event) → HasJitter e → HasBoundedRetries s → HasBoundedRetries (step s e)
unfolding step
step-HasBoundedRetries s sync_now j h = ground arith
step-HasBoundedRetries s (pulled t) j h = ground arith
step-HasBoundedRetries s (finished completed jitter) j h = ground arith
step-HasBoundedRetries s (finished conflict jitter) j h =
    ground (arith, retry_delay_bounds s.retry_attempts jitter)
step-HasBoundedRetries s (finished not_found jitter) j h = ground arith
step-HasBoundedRetries s (finished reset_failed jitter) j h = ground arith
step-HasBoundedRetries s (finished other_error jitter) j h =
    ground (arith, retry_delay_bounds s.retry_attempts jitter)
step-HasBoundedRetries s timer_fired j h = ground arith
step-HasBoundedRetries s (connectivity b) j h = ground arith
step-HasBoundedRetries s cleanup j h = ground arith

-- Whatever happens from a state within these bounds, at most five attempts are counted, and an
-- armed retry waits between 800 and 12598 milliseconds.
pub run-HasBoundedRetries :
    (s : State) (es : List Event)
    → All HasJitter es
    → HasBoundedRetries s
    → HasBoundedRetries (run s es)
unfolding run
run-HasBoundedRetries s [] j h = h
run-HasBoundedRetries s (e ∷ es) (j, js) h =
    run-HasBoundedRetries (step s e) es js (step-HasBoundedRetries s e j h)

-- How a sync fails, other than by the server's answer 404 or a cursor that cannot be reset.
pub data Failure : Type 0 where
  answered_conflict failed_otherwise : Failure

abbrev pub outcome_of : Failure → Outcome
outcome_of answered_conflict = conflict
outcome_of failed_otherwise = other_error

-- Each failure, with its random factor, is followed by the firing of its timer, if it has one.
abbrev pub failures : List (Failure × ℕ) → List Event
failures [] = []
failures ((f, j) ∷ fs) = finished (outcome_of f) j ∷ timer_fired ∷ failures fs

-- No retry is waiting.
abbrev pub IsNotArmed : RetryTimer → Type 0
IsNotArmed (armed d) = ⊥
IsNotArmed _ = Unit

-- After so many failures since the last success: a new sync is under way, or it was one too many.
pub record HasFailed (n : ℕ) (t : State) : Type 0 where
  pub syncing : t.is_syncing ≡ leb n max_attempts
  pub attempts : t.retry_attempts ≡ (if leb n max_attempts then n else 0)
  pub waiting : IsNotArmed t.retry_timer

abbrev next_round : State → Failure → ℕ → State
next_round s f j = step (step s (finished (outcome_of f) j)) timer_fired
