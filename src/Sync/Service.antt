-- ===== src/Sync/Service.antt =====
-- `SyncService` (sync-service.ts) as a state machine: `syncNow` with its guard, its outcomes and
-- its retries. `synchronize` of WatermelonDB is the environment: it calls back with a pulled
-- timestamp, and ends in one of the outcomes below.
pub mod Retries
pub mod Lifecycle
use ylp_software.Base.{
  ℕ, ◌+◌, ◌*◌, ◌/◌, ◌^◌, min, max, Bool, true, false, Option, none, some, List, [], ◌∷◌, ◌++◌, leb,
  if◌then◌else◌,
}

-- The "sync-status" event.
pub data SyncStatus : Type 0 where
  started complete failed retrying : SyncStatus

-- `retryTimer`: the handle stays when the timer has fired.
pub data RetryTimer : Type 0 where
  unset : RetryTimer
  armed : ℕ → RetryTimer
  fired : RetryTimer

pub record State : Type 0 where
  pub is_syncing : Bool
  pub retry_attempts : ℕ
  pub retry_timer : RetryTimer
  pub last_pulled_at : Option ℕ
  pub has_migration_keys : Bool
  pub has_listeners : Bool
  pub emitted : List SyncStatus

-- How a call of `synchronize`, with the work after it, ends: well; with the server's answer 409 or
-- 404; so, but the cursor cannot be reset in the secure store; with any other error.
pub data Outcome : Type 0 where
  completed conflict not_found reset_failed other_error : Outcome

pub data Event : Type 0 where
  sync_now : Event
  pulled : ℕ → Event
  finished : Outcome → ℕ → Event
  timer_fired : Event
  connectivity : Bool → Event
  cleanup : Event

unfoldable pub emit : SyncStatus → State → State
emit e s = if s.has_listeners then record s { emitted = s.emitted ++ e ∷ [] } else s

unfoldable pub clear_retry_timer : State → State
clear_retry_timer s = record s { retry_timer = unset }

abbrev pub max_attempts : ℕ
max_attempts = 5

-- `Math.min(MAX_MS, Math.round(BASE_MS * Math.pow(1.8, attempts)))`, with the power as a fraction
unfoldable pub base_delay : ℕ → ℕ
base_delay attempts = min 30000 ((2 * 1000 * 18 ^ attempts + 10 ^ attempts) / (2 * 10 ^ attempts))

-- `Math.max(200, Math.round(base * (0.8 + Math.random() * 0.4)))`; the random factor is given in
-- thousandths, from 800 to 1200.
unfoldable pub retry_delay : ℕ → ℕ → ℕ
retry_delay attempts jitter = max 200 ((2 * base_delay attempts * jitter + 1000) / 2000)

-- `scheduleRetry`
unfoldable pub schedule_retry : ℕ → State → State
unfolding emit clear_retry_timer
schedule_retry jitter s =
    if leb max_attempts s.retry_attempts
    then record s { retry_attempts = 0 }
    else emit retrying (record s {
      retry_attempts = s.retry_attempts + 1;
      retry_timer = armed (retry_delay s.retry_attempts jitter);
    })

-- The beginning of `syncNow`, up to the call of `synchronize`.
unfoldable pub begin_sync : State → State
unfolding emit
begin_sync s = if s.is_syncing then s else emit started (record s { is_syncing = true })

-- The rest of `syncNow`, `catch` and `finally` included.
unfoldable pub end_sync : Outcome → ℕ → State → State
unfolding emit clear_retry_timer schedule_retry
end_sync completed jitter s =
    let s' = emit complete (record s { has_migration_keys = false }) in
    record (clear_retry_timer (record s' { retry_attempts = 0 })) { is_syncing = false }
end_sync conflict jitter s =
    record (schedule_retry jitter (emit failed (record s { last_pulled_at = some 0 }))) {
      is_syncing = false;
    }
end_sync not_found jitter s = record (emit failed (record s { last_pulled_at = some 0 })) {
  is_syncing = false;
}
end_sync reset_failed jitter s = record s { is_syncing = false }
end_sync other_error jitter s = record (schedule_retry jitter (emit failed s)) {
  is_syncing = false;
}

-- `setTimeout(() => void this.syncNow(), delay)`
unfoldable pub fire_timer : RetryTimer → State → State
unfolding begin_sync
fire_timer (armed d) s = begin_sync (record s { retry_timer = fired })
fire_timer _ s = s

-- One event. The environment pulls and finishes only while a call of `synchronize` is under way.
unfoldable pub step : State → Event → State
unfolding begin_sync end_sync fire_timer clear_retry_timer
step s sync_now = begin_sync s
step s (pulled timestamp) = if s.is_syncing then record s { last_pulled_at = some timestamp } else s
step s (finished outcome jitter) = if s.is_syncing then end_sync outcome jitter s else s
step s timer_fired = fire_timer s.retry_timer s
step s (connectivity false) = s
step s (connectivity true) = begin_sync (record (clear_retry_timer s) { retry_attempts = 0 })
step s cleanup = record (clear_retry_timer s) { has_listeners = false }

unfoldable pub run : State → List Event → State
run s [] = s
run s (e ∷ es) = run (step s e) es
