-- ===== src/Chat/AckTracker.antt =====
-- `MessageAckTracker` (chat/services/message-ack-tracker.ts). A timer that is set stays pending until
-- it fires or is cleared through its handle; the handles are numbers, each used once.
pub mod Silence
mod Tests
use ylp_software.Base.{
  ℕ, suc, String, Option, none, some, List, [], ◌∷◌, ◌++◌, lookup, insert, erase, nat_same,
  string_same,
}

pub record State : Type 0 where
  pub timeouts : List (String × ℕ)
  pub pending : List (ℕ × String)
  pub next_handle : ℕ
  pub timed_out : List String

unfoldable pub initial : State
initial = record { timeouts = []; pending = []; next_handle = 1; timed_out = [] }

abbrev pub clear_found : String → Option ℕ → State → State
clear_found k none s = s
clear_found k (some t) s = record s { pending = erase t s.pending; timeouts = erase k s.timeouts }

unfoldable pub clear : String → State → State
clear k s = clear_found k (lookup k s.timeouts) s

-- `arm`; the callback is the entry that the timer adds to `timed_out`.
unfoldable pub arm : String → State → State
unfolding clear
arm k s =
    let c = clear k s in
    record c {
      timeouts = insert k s.next_handle c.timeouts;
      pending = (s.next_handle, k) ∷ c.pending;
      next_handle = suc s.next_handle;
    }

abbrev pub erase_all : List (String × ℕ) → List (ℕ × String) → List (ℕ × String)
erase_all [] pending = pending
erase_all ((k, t) ∷ ts) pending = erase_all ts (erase t pending)

unfoldable pub clear_all : State → State
clear_all s = record s { pending = erase_all s.timeouts s.pending; timeouts = [] }

abbrev pub time_out : ℕ → Option String → State → State
time_out t none s = s
time_out t (some k) s = record s {
  pending = erase t s.pending;
  timeouts = erase k s.timeouts;
  timed_out = s.timed_out ++ k ∷ [];
}

-- The callback of a timer.
unfoldable pub fire : ℕ → State → State
fire t s = time_out t (lookup t s.pending) s

pub data Event : Type 0 where
  armed cleared : String → Event
  all_cleared : Event
  fired : ℕ → Event

unfoldable pub step : State → Event → State
unfolding arm clear clear_all fire
step s (armed k) = arm k s
step s (cleared k) = clear k s
step s all_cleared = clear_all s
step s (fired t) = fire t s

unfoldable pub run : State → List Event → State
run s [] = s
run s (e ∷ es) = run (step s e) es
