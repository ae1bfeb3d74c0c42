-- ===== src/Connection/IceRestart.antt =====
-- `IceRestartController` (adapters/ice-restart-controller.ts). Timers that are set stay pending
-- until they fire or are cleared through the one handle that the controller keeps; an offer that
-- is being made is in flight until its promise settles.
pub mod Recovery
pub mod Budget
use ylp_software.Base.{
  ℕ, suc, ◌+◌, ◌-◌, Bool, true, false, Option, none, some, List, [], ◌∷◌, ◌++◌, leb, ltb, erase,
  lookup, nat_same, if◌then◌else◌,
}

-- What a timer does when it fires: try a restart, or schedule the next one.
pub data Timer : Type 0 where
  restart : ℕ → Timer
  fallback : Timer

pub data Effect : Type 0 where
  ice_restarting connection_failed signal_offer : Effect

pub record State : Type 0 where
  pub attempts : ℕ
  pub handle : Option ℕ
  pub pending : List (ℕ × Timer)
  pub next_id : ℕ
  pub in_flight : ℕ
  pub effects : List Effect

abbrev pub max_attempts : ℕ
max_attempts = 3

abbrev pub restart_delay_ms : ℕ
restart_delay_ms = 1500

unfoldable pub initial : State
initial = record {
  attempts = 0;
  handle = none;
  pending = [];
  next_id = 0;
  in_flight = 0;
  effects = [];
}

abbrev pub emit : Effect → State → State
emit e s = record s { effects = s.effects ++ e ∷ [] }

abbrev pub clear_handle : Option ℕ → State → State
clear_handle none s = s
clear_handle (some i) s = record s { pending = erase i s.pending; handle = none }

-- `this.iceRestartTimer = setTimeout(…)`: the handle is overwritten.
abbrev pub set_timer : Timer → State → State
set_timer t s = record s {
  pending = s.pending ++ (s.next_id, t) ∷ [];
  handle = some s.next_id;
  next_id = suc s.next_id;
}

-- `scheduleIceRestart`; the reason only goes to the log.
unfoldable pub schedule_ice_restart : Bool → State → State
schedule_ice_restart immediate s =
    if leb max_attempts s.attempts
    then emit connection_failed s
    else set_timer (restart (if immediate then 0 else restart_delay_ms))
        (emit ice_restarting (clear_handle s.handle s))

-- The callback of a timer.
unfoldable pub on_timer : Timer → State → State
unfolding schedule_ice_restart
on_timer (restart d) s = record s { attempts = suc s.attempts; in_flight = suc s.in_flight }
on_timer fallback s = schedule_ice_restart true s

unfoldable pub fire : ℕ → State → State
unfolding on_timer
fire i s = elim (lookup i s.pending) [
  | none ↦ s
  | some t ↦ on_timer t (record s { pending = erase i s.pending })
]

-- `restartIce` settles: the offer is emitted, unless making it failed, and the fallback is set.
unfoldable pub settle : Bool → State → State
settle made s =
    if ltb 0 s.in_flight
    then set_timer fallback (record s {
      in_flight = s.in_flight - 1;
      effects = if made then s.effects ++ signal_offer ∷ [] else s.effects;
    })
    else s

-- `resetIceRestartState`
unfoldable pub reset_ice_restart_state : State → State
reset_ice_restart_state s = clear_handle s.handle (record s { attempts = 0 })

pub data Event : Type 0 where
  schedule : Bool → Event
  timer : ℕ → Event
  settled : Bool → Event
  reset : Event

unfoldable pub step : State → Event → State
unfolding schedule_ice_restart fire settle reset_ice_restart_state
step s (schedule immediate) = schedule_ice_restart immediate s
step s (timer i) = fire i s
step s (settled made) = settle made s
step s reset = reset_ice_restart_state s

unfoldable pub run : State → List Event → State
run s [] = s
run s (e ∷ es) = run (step s e) es
