-- ===== src/Connection/Liveness.antt =====
-- `LivenessMonitor` (adapters/liveness-monitor.ts). The two timers are the fields that hold their
-- handles; a frame that cannot be sent only writes to the log.
pub mod Probing
pub mod Losses
use ylp_software.Base.{
  ℕ, suc, ◌+◌, Bool, true, false, not, ◌&&◌, ◌||◌, Option, none, some, List, [], ◌∷◌, ◌++◌, leb,
  ltb, ◌==◌, nat_same, if◌then◌else◌,
}

pub data Effect : Type 0 where
  sent_ping : ℕ → Effect
  sent_pong : ℕ → Effect
  lost restored : Effect

pub record State : Type 0 where
  pub ping_timer : Option ℕ
  pub pong_deadline : Bool
  pub nonce : ℕ
  pub missed_pongs : ℕ
  pub is_awaiting_pong : Bool
  pub is_degraded : Bool
  pub ice_restart_attempts : ℕ
  pub effects : List Effect

abbrev pub ping_interval_ms : ℕ
ping_interval_ms = 4000

abbrev pub max_missed_pongs : ℕ
max_missed_pongs = 2

unfoldable pub initial : State
initial = record {
  ping_timer = none;
  pong_deadline = false;
  nonce = 0;
  missed_pongs = 0;
  is_awaiting_pong = false;
  is_degraded = false;
  ice_restart_attempts = 0;
  effects = [];
}

abbrev pub emit : Effect → State → State
emit e s = record s { effects = s.effects ++ e ∷ [] }

abbrev pub schedule_next_ping : ℕ → State → State
schedule_next_ping delay s = record s { ping_timer = some delay }

unfoldable pub stop : State → State
stop s = record s {
  ping_timer = none;
  pong_deadline = false;
  is_awaiting_pong = false;
  missed_pongs = 0;
  is_degraded = false;
}

unfoldable pub start : State → State
unfolding stop
start s = schedule_next_ping ping_interval_ms (stop s)

-- `sendPing`, the callback of the ping timer; `sends` tells whether the channel takes the frame.
unfoldable pub send_ping : Bool → State → State
send_ping sends s =
    let n = suc s.nonce in
    record s {
      ping_timer = none;
      pong_deadline = true;
      nonce = n;
      is_awaiting_pong = true;
      effects = if sends then s.effects ++ sent_ping n ∷ [] else s.effects;
    }

unfoldable pub on_lost : State → State
on_lost s = if s.is_degraded then s else emit lost (record s { is_degraded = true })

-- `onPongTimeout`, the callback of the deadline.
unfoldable pub on_pong_timeout : State → State
unfolding on_lost
on_pong_timeout s =
    let t = record s { pong_deadline = false } in
    let m = record t { is_awaiting_pong = false; missed_pongs = suc s.missed_pongs } in
    let l = if leb max_missed_pongs m.missed_pongs then on_lost m else m in
    if s.is_awaiting_pong
    then schedule_next_ping (if l.is_degraded then 0 else ping_interval_ms) l
    else t

unfoldable pub handle_ping : Bool → ℕ → State → State
handle_ping sends n s = if sends then emit (sent_pong n) s else s

unfoldable pub handle_pong : State → State
handle_pong s =
    let t = record s { is_awaiting_pong = false; pong_deadline = false; missed_pongs = 0 } in
    let r =
      if s.is_degraded || ltb 0 s.ice_restart_attempts
      then emit restored (record t { is_degraded = false; ice_restart_attempts = 0 })
      else t in
    if not s.is_awaiting_pong && not s.is_degraded && s.ice_restart_attempts == 0
    then s
    else schedule_next_ping ping_interval_ms r

pub data Event : Type 0 where
  started stopped : Event
  ping_due : Bool → Event
  pong_timeout : Event
  ping_received : Bool → ℕ → Event
  pong_received : Event
  restarting : ℕ → Event

abbrev pub when_set : {A : Type 0} → Option A → State → State → State
when_set none t s = s
when_set (some d) t s = t

-- One event; a timer fires only while it is set.
unfoldable pub step : State → Event → State
unfolding start stop send_ping on_pong_timeout handle_ping handle_pong
step s started = start s
step s stopped = stop s
step s (ping_due sends) = when_set s.ping_timer (send_ping sends s) s
step s pong_timeout = if s.pong_deadline then on_pong_timeout s else s
step s (ping_received sends n) = handle_ping sends n s
step s pong_received = handle_pong s
step s (restarting attempts) = record s { ice_restart_attempts = attempts }

unfoldable pub run : State → List Event → State
run s [] = s
run s (e ∷ es) = run (step s e) es
