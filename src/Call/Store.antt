-- ===== src/Call/Store.antt =====
-- The call sessions (services/call-service.ts, services/call-log-service.ts). A session is an object
-- that the map `callSessions` and the running operations share, so the objects are kept by
-- reference.
pub mod Sound
use ylp_software.Base.{
  ℕ, suc, ◌-◌, ◌/◌, Bool, true, false, not, ◌||◌, String, Option, none, some, List, [], ◌∷◌, lookup,
  insert, erase, get_or_else, ◌<|>◌, is_some, nat_same, string_same, ◌==◌, if◌then◌else◌,
}
use ylp_software.Model.{CallType, CallStatus}
use ylp_software.Connection.CallRouting.{Reason}

-- `CallSession`
pub record Session : Type 0 where
  pub call_id : String
  pub peer_id : String
  pub call_type : CallType
  pub started_at : ℕ
  pub answered_at : Option ℕ
  pub peer_name : String
  pub is_incoming : Bool
  pub finalized : Bool
  pub conversation_id : String

pub record Store : Type 0 where
  pub call_sessions : List (String × ℕ)
  pub objects : List (ℕ × Session)
  pub next_ref : ℕ

abbrev pub no_sessions : Store
no_sessions = record { call_sessions = []; objects = []; next_ref = 0 }

abbrev pub session_at : Store → ℕ → Option Session
session_at s ref = lookup ref s.objects

abbrev pub deref : Store → Option ℕ → Option Session
deref s none = none
deref s (some ref) = session_at s ref

abbrev pub unless_finalized : ℕ → Option Session → Option ℕ
unless_finalized ref none = none
unless_finalized ref (some session) = if session.finalized then none else some ref

abbrev pub live : Store → Option ℕ → Option ℕ
live s none = none
live s (some ref) = unless_finalized ref (session_at s ref)

-- `callSessions.get(peerId)`, if it is not `finalized`.
abbrev pub live_session : Store → String → Option ℕ
live_session s peer = live s (lookup peer s.call_sessions)

-- The end of `ensureSession`: a new session, which the map has from now on.
unfoldable pub open_session : Session → Store → Store
open_session session s = record {
  call_sessions = insert session.peer_id s.next_ref s.call_sessions;
  objects = (s.next_ref, session) ∷ s.objects;
  next_ref = suc s.next_ref;
}

-- A change of an object in place.
abbrev pub adjust : (Session → Session) → ℕ → List (ℕ × Session) → List (ℕ × Session)
adjust f ref [] = []
adjust f ref ((r, session) ∷ rest) =
    let others = adjust f ref rest in
    if r == ref then (r, f session) ∷ others else (r, session) ∷ others

abbrev pub set_answered : ℕ → Session → Session
set_answered now session = record session { answered_at = session.answered_at <|> some now }

-- `if (!session.answeredAt) session.answeredAt = new Date()`
unfoldable pub mark_answered : ℕ → ℕ → Store → Store
mark_answered ref now s = record s { objects = adjust (set_answered now) ref s.objects }

abbrev pub set_finalized : Session → Session
set_finalized session = record session { finalized = true }

-- The `finally` of `finalizeSession`.
unfoldable pub retire : String → ℕ → Store → Store
retire peer ref s = record s {
  call_sessions = erase peer s.call_sessions;
  objects = adjust set_finalized ref s.objects;
}

abbrev pub was_answered : Option Session → Bool
was_answered none = false
was_answered (some session) = is_some session.answered_at

-- `resolveFinalStatus`
unfoldable pub resolve_final_status : Option Reason → Option Session → CallStatus
resolve_final_status (some Reason.rejected) session = CallStatus.rejected
resolve_final_status (some Reason.missed) session = CallStatus.missed
resolve_final_status (some Reason.completed) session = CallStatus.completed
resolve_final_status none session =
    if was_answered session then CallStatus.completed else CallStatus.missed

-- `calculateDurationSeconds`
unfoldable pub calculate_duration_seconds : Option Session → ℕ → ℕ
calculate_duration_seconds none end_time = 0
calculate_duration_seconds (some session) end_time =
    (end_time - get_or_else session.answered_at session.started_at) / 1000
