-- ===== src/Connection/Connecting.antt =====
-- A connect to a peer (shared/connection/services/connection-service.ts): `connectToPeerImpl`,
-- `establishTcpForMode`, `connectTcpWithRetry`, `negotiateWebrtcConnection` and `retryConnect`, for
-- one caller. What an attempt finds and hears is a value; what it does is a list of effects.
pub mod Dialling
pub mod Ends
mod Tests
use ylp_software.Base.{
  ℕ, zero, suc, ◌*◌, Bool, true, false, not, ◌&&◌, ◌||◌, String, Option, none, some, List, [], ◌∷◌,
  ◌++◌, ltb, any, get_or_else, if◌then◌else◌,
}
use ylp_software.Connection.Planning.{
  AppMode, lan, server, auto, SignalingTransport, no_transport, resolve_signaling_transport,
  should_retry_connect,
}

-- What settles a negotiation.
pub data Signal : Type 0 where
  established failed offer_failed timed_out : Signal

pub data ConnectionState : Type 0 where
  connecting connected failure timeout : ConnectionState

pub data Effect : Type 0 where
  state_emitted : ConnectionState → SignalingTransport → AppMode → Effect
  slept : ℕ → Effect
  dialed : String → Effect
  polite_set : Bool → Effect
  profile_sent handshake_sent offer_sent tcp_evicted : Effect
  webrtc_evicted : Bool → Effect

-- What an attempt finds: the mode, the transports, whether the adapters are connected, which dials are
-- answered, and what is heard, in this order, before the timeout.
pub record World : Type 0 where
  pub mode : AppMode
  pub is_ws_allowed : Bool
  pub ensures_ws : Bool
  pub can_use_tcp : Bool
  pub is_webrtc_connected : Bool
  pub is_tcp_connected : Bool
  pub answers : String → ℕ → Bool
  pub signals : List Signal

-- The addresses of the peer, whether its port is known, and whether this device's id is the smaller.
pub record Route : Type 0 where
  pub candidates : List String
  pub has_port : Bool
  pub is_polite : Bool

pub data Result : Type 0 where
  resolved rejected out_of_fuel : Result

abbrev pub is_ws_configured : World → Bool
is_ws_configured w = w.is_ws_allowed && w.ensures_ws

abbrev pub transport_of : World → SignalingTransport
transport_of w = resolve_signaling_transport (is_ws_configured w) w.can_use_tcp

abbrev pub pause : ℕ → List Effect
pause zero = []
pause (suc attempt) = slept (500 * suc attempt) ∷ []

-- The dials of an address, from an attempt on.
abbrev pub try_address : (ℕ → Bool) → String → ℕ → ℕ → List Effect × Bool
try_address answers ip attempt zero = ([], false)
try_address answers ip attempt (suc left) =
    let rest = try_address answers ip (suc attempt) left in
    if answers attempt
    then (pause attempt ++ dialed ip ∷ [], true)
    else (pause attempt ++ dialed ip ∷ [] ++ rest.0, rest.1)

-- `connectTcpWithRetry`; whether an address has answered.
unfoldable pub connect_tcp_with_retry : (String → ℕ → Bool) → List String → ℕ → List Effect × Bool
connect_tcp_with_retry answers [] max_retries = ([], false)
connect_tcp_with_retry answers (ip ∷ ips) max_retries =
    let tried = try_address (answers ip) ip 0 (suc max_retries) in
    let rest = connect_tcp_with_retry answers ips max_retries in
    if tried.1 then tried else (tried.0 ++ rest.0, rest.1)

-- Whether TCP is connected; `none` where it throws.
abbrev pub after_dial : Bool → List Effect × Bool → List Effect × Option Bool
after_dial is_fatal (es, true) = (es ++ profile_sent ∷ [], some true)
after_dial is_fatal (es, false) = (es, if is_fatal then none else some false)

abbrev pub is_empty : List String → Bool
is_empty [] = true
is_empty (_ ∷ _) = false

abbrev pub can_dial : Route → Bool
can_dial r = not (is_empty r.candidates) && r.has_port

abbrev pub establish : AppMode → World → Route → List Effect × Option Bool
establish server w r = ([], if is_ws_configured w then some w.is_tcp_connected else none)
establish lan w r =
    if not w.can_use_tcp
    then ([], none)
    else if w.is_tcp_connected
    then ([], some true)
    else if can_dial r
    then after_dial true (connect_tcp_with_retry w.answers r.candidates 2)
    else ([], none)
establish auto w r =
    if w.can_use_tcp && not w.is_tcp_connected
    then if can_dial r
      then after_dial (not (is_ws_configured w)) (connect_tcp_with_retry w.answers r.candidates 2)
      else ([], if is_ws_configured w then some false else none)
    else ([], some w.is_tcp_connected)

-- `establishTcpForMode`
unfoldable pub establish_tcp_for_mode : World → Route → List Effect × Option Bool
unfolding connect_tcp_with_retry
establish_tcp_for_mode w r = establish w.mode w r

-- `sendConnectionOffer`, once the offer is made.
abbrev pub send_connection_offer : Bool → List Effect
send_connection_offer is_tcp_connected =
    (if is_tcp_connected then handshake_sent ∷ [] else []) ++ offer_sent ∷ []

-- `isSettled`: the first signal settles the negotiation, and the others are ignored.
abbrev pub settle : Option Signal → List Signal → Option Signal
settle verdict [] = verdict
settle none (s ∷ signals) = settle (some s) signals
settle (some verdict) (s ∷ signals) = settle (some verdict) signals

abbrev pub evict_tcp : Route → List Effect
evict_tcp r = if can_dial r then tcp_evicted ∷ [] else []

-- `evictWebrtcAdapter`: the eviction callback tells that the connection has failed. What it does to a
-- call that is active with the peer is not followed.
abbrev pub evict_webrtc : World → Bool → List Effect
evict_webrtc w is_retry = webrtc_evicted is_retry ∷ state_emitted failure no_transport w.mode ∷ []

abbrev pub give_up_or_retry :
    Bool → List Effect → List Effect → Result × List Effect → Result × List Effect
give_up_or_retry true before last again = (again.0, before ++ again.1)
give_up_or_retry false before last again = (rejected, last)

-- The handlers of `negotiateWebrtcConnection`; `again` is the next attempt.
abbrev pub conclude : ℕ → World → Route → Signal → Result × List Effect → Result × List Effect
conclude retry_count w r established again =
    (resolved, state_emitted connected (transport_of w) w.mode ∷ [])
conclude retry_count w r failed again =
    give_up_or_retry (should_retry_connect retry_count (transport_of w))
      (evict_webrtc w true ++ evict_tcp r) (state_emitted failure (transport_of w) w.mode ∷ [])
      again
conclude retry_count w r timed_out again =
    give_up_or_retry (should_retry_connect retry_count (transport_of w))
      (evict_webrtc w true ++ evict_tcp r) (state_emitted timeout (transport_of w) w.mode ∷ [])
      again
conclude retry_count w r offer_failed again =
    give_up_or_retry (should_retry_connect retry_count (transport_of w)) (evict_webrtc w true)
      (evict_webrtc w false ++ state_emitted failure (transport_of w) w.mode ∷ []) again

abbrev pub is_offer_failed : Signal → Bool
is_offer_failed offer_failed = true
is_offer_failed signal = false

-- The offer, if it is made.
abbrev pub offers : World → Bool → List Effect
offers w is_tcp_connected =
    if any is_offer_failed w.signals then [] else send_connection_offer is_tcp_connected

-- `negotiateWebrtcConnection`: at the latest, the timeout settles it.
unfoldable pub negotiate_webrtc_connection :
    ℕ → World → Route → Bool → Result × List Effect → Result × List Effect
unfolding should_retry_connect resolve_signaling_transport
negotiate_webrtc_connection retry_count w r is_tcp_connected again =
    let verdict = get_or_else (settle none w.signals) timed_out in
    let end = conclude retry_count w r verdict again in
    (end.0, state_emitted connecting (transport_of w) w.mode ∷ offers w is_tcp_connected ++ end.1)

abbrev pub negotiate_established :
    ℕ → World → Route → Result × List Effect → List Effect × Option Bool → Result × List Effect
negotiate_established retry_count w r again (es, none) = (rejected, es)
negotiate_established retry_count w r again (es, some is_tcp_connected) =
    let n = negotiate_webrtc_connection retry_count w r is_tcp_connected again in (n.0, es ++ n.1)

-- `connectToPeerImpl`, in the worlds that its attempts find.
unfoldable pub connect_to_peer : ℕ → (ℕ → World) → Route → ℕ → Result × List Effect
unfolding negotiate_webrtc_connection establish_tcp_for_mode
connect_to_peer zero worlds r retry_count = (out_of_fuel, [])
connect_to_peer (suc n) worlds r retry_count =
    let w = worlds retry_count in
    let again = connect_to_peer n worlds r (suc retry_count) in
    let end =
      if w.is_webrtc_connected
      then (resolved, state_emitted connected (transport_of w) w.mode ∷ [])
      else negotiate_established retry_count w r again (establish_tcp_for_mode w r) in
    (end.0, polite_set r.is_polite ∷ end.1)

-- `prepareCallSignaling`; whether a transport is available.
unfoldable pub prepare_call_signaling : World → Route → List Effect × Bool
unfolding establish_tcp_for_mode
prepare_call_signaling w r = prepared w.mode
  where
    has_transport : List Effect × Option Bool → List Effect × Bool
    has_transport (es, none) = (es, false)
    has_transport (es, some is_tcp_connected) = (es, is_tcp_connected || is_ws_configured w)

    prepared : AppMode → List Effect × Bool
    prepared server = ([], is_ws_configured w)
    prepared lan = has_transport (establish_tcp_for_mode w r)
    prepared auto =
        if is_ws_configured w then ([], true) else has_transport (establish_tcp_for_mode w r)
