-- ===== src/Connection/Planning.antt =====
-- The plan of a connect attempt (services/connect-planning.ts).
pub mod Candidates
use ylp_software.Base.{
  ℕ, Bool, true, false, ◌&&◌, Option, none, some, List, [], ◌∷◌, String, ltb, truthy, contains, add,
  string_same, if◌then◌else◌,
}

pub data AppMode : Type 0 where
  lan server auto : AppMode

pub data SignalingTransport : Type 0 where
  ws tcp no_transport : SignalingTransport

abbrev pub lan_connect_timeout_ms : ℕ
lan_connect_timeout_ms = 7000

abbrev pub server_connect_timeout_ms : ℕ
server_connect_timeout_ms = 15000

abbrev pub auto_connect_timeout_ms : ℕ
auto_connect_timeout_ms = 10000

abbrev pub max_connect_retries : ℕ
max_connect_retries = 1

-- `new Set(xs)` of the truthy elements, in the order of first insertion.
abbrev pub add_truthy : List String → List (Option String) → List String
add_truthy seen [] = seen
add_truthy seen (none ∷ xs) = add_truthy seen xs
add_truthy seen (some x ∷ xs) = add_truthy (if truthy x then add seen x else seen) xs

abbrev pub present : Option (List String) → List (Option String)
present none = []
present (some []) = []
present (some (x ∷ xs)) = some x ∷ present (some xs)

unfoldable pub dedupe_candidate_addresses : Option String → Option (List String) → List String
dedupe_candidate_addresses ip_address addresses = add_truthy [] (ip_address ∷ present addresses)

unfoldable pub resolve_signaling_transport : Bool → Bool → SignalingTransport
resolve_signaling_transport is_ws_configured can_use_tcp =
    if is_ws_configured then ws else if can_use_tcp then tcp else no_transport

unfoldable pub resolve_connect_timeout_ms : AppMode → ℕ
resolve_connect_timeout_ms lan = lan_connect_timeout_ms
resolve_connect_timeout_ms server = server_connect_timeout_ms
resolve_connect_timeout_ms auto = auto_connect_timeout_ms

unfoldable pub should_retry_connect : ℕ → SignalingTransport → Bool
should_retry_connect retry_count no_transport = false
should_retry_connect retry_count ws = ltb retry_count max_connect_retries
should_retry_connect retry_count tcp = ltb retry_count max_connect_retries
