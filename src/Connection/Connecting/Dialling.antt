-- ===== src/Connection/Connecting/Dialling.antt =====
-- What a connect does before its negotiation tells nothing, and dials each address three times at
-- most.
use ylp_software.Base.{
  ◌≡◌, refl, ℕ, zero, suc, ◌+◌, ◌*◌, ◌≤◌, Bool, true, false, not, ◌&&◌, String, Option, none, some,
  List, [], ◌∷◌, ◌++◌, count, count-append, length, if◌then◌else◌, arith,
}
use ylp_software.Connection.Planning.{AppMode, lan, server, auto}
use ylp_software.Connection.Connecting.{
  connecting, connected, failure, timeout, Effect, state_emitted, dialed, webrtc_evicted,
  profile_sent, World, Route, Result, resolved, out_of_fuel, is_ws_configured, pause, try_address,
  connect_tcp_with_retry, after_dial, can_dial, establish, offers,
}

abbrev pub is_resolved : Result → Bool
is_resolved resolved = true
is_resolved result = false

abbrev pub is_out_of_fuel : Result → Bool
is_out_of_fuel out_of_fuel = true
is_out_of_fuel result = false

abbrev pub tells_connected : Effect → Bool
tells_connected (state_emitted connected _ _) = true
tells_connected e = false

abbrev pub tells_connecting : Effect → Bool
tells_connecting (state_emitted connecting _ _) = true
tells_connecting e = false

-- `failed` or `timeout`.
abbrev pub tells_failure : Effect → Bool
tells_failure (state_emitted failure _ _) = true
tells_failure (state_emitted timeout _ _) = true
tells_failure e = false

abbrev pub is_dial : Effect → Bool
is_dial (dialed ip) = true
is_dial e = false

abbrev pub one_if : Bool → ℕ
one_if true = 1
one_if false = 0

abbrev pub is_eviction : Effect → Bool
is_eviction (webrtc_evicted is_retry) = true
is_eviction e = false

-- A connect that has ended, after at most so many attempts, evictions of the adapter, of which each
-- tells of a failure, and dials.
pub record HasEnded (tries evictions most : ℕ) (r : Result) (es : List Effect) : Type 0 where
  pub ended : is_out_of_fuel r ≡ false
  pub told : count tells_connected es ≡ one_if (is_resolved r)
  pub failures : count tells_failure es + one_if (is_resolved r) ≤ 1 + count is_eviction es
  pub evicted : count is_eviction es ≤ evictions
  pub attempts : count tells_connecting es ≤ tries
  pub dials : count is_dial es ≤ most

-- Effects that tell nothing, with at most so many dials.
pub record IsQuiet (n : ℕ) (es : List Effect) : Type 0 where
  pub connected : count tells_connected es ≡ 0
  pub failures : count tells_failure es ≡ 0
  pub evicted : count is_eviction es ≡ 0
  pub attempts : count tells_connecting es ≡ 0
  pub dials : count is_dial es ≤ n

IsQuiet-append :
    (m n : ℕ) (xs ys : List Effect) → IsQuiet m xs → IsQuiet n ys → IsQuiet (m + n) (xs ++ ys)
IsQuiet-append m n xs ys h k = record {
  connected = omega (arith, count-append tells_connected xs ys, h.connected, k.connected);
  failures = omega (arith, count-append tells_failure xs ys, h.failures, k.failures);
  evicted = omega (arith, count-append is_eviction xs ys, h.evicted, k.evicted);
  attempts = omega (arith, count-append tells_connecting xs ys, h.attempts, k.attempts);
  dials = omega (arith, count-append is_dial xs ys, h.dials, k.dials);
}

pub HasEnded-quiet :
    (n tries evictions most : ℕ) (r : Result) (xs ys : List Effect)
    → IsQuiet n xs
    → HasEnded tries evictions most r ys
    → HasEnded tries evictions (n + most) r (xs ++ ys)
HasEnded-quiet n tries evictions most r xs ys h k = record {
  ended = k.ended;
  told = omega (arith, count-append tells_connected xs ys, h.connected, k.told);
  failures = omega (
    arith,
    count-append tells_failure xs ys,
    count-append is_eviction xs ys,
    h.failures,
    h.evicted,
    k.failures,
  );
  evicted = omega (arith, count-append is_eviction xs ys, h.evicted, k.evicted);
  attempts = omega (arith, count-append tells_connecting xs ys, h.attempts, k.attempts);
  dials = omega (arith, count-append is_dial xs ys, h.dials, k.dials);
}

pub HasEnded-most :
    (tries evictions most more : ℕ) (r : Result) (es : List Effect)
    → most ≤ more
    → HasEnded tries evictions most r es
    → HasEnded tries evictions more r es
HasEnded-most tries evictions most more r es l k = record {
  ended = k.ended;
  told = k.told;
  failures = k.failures;
  evicted = k.evicted;
  attempts = k.attempts;
  dials = omega (arith, l, k.dials);
}

dial-IsQuiet : (ip : String) (attempt : ℕ) → IsQuiet 1 (pause attempt ++ dialed ip ∷ [])
dial-IsQuiet ip zero = record {
  connected = refl;
  failures = refl;
  evicted = refl;
  attempts = refl;
  dials = omega arith;
}
dial-IsQuiet ip (suc attempt) = record {
  connected = refl;
  failures = refl;
  evicted = refl;
  attempts = refl;
  dials = omega arith;
}

silent-any : (n : ℕ) → IsQuiet n []
silent-any n = record {
  connected = refl;
  failures = refl;
  evicted = refl;
  attempts = refl;
  dials = omega arith;
}

IsQuiet-le : (m n : ℕ) (es : List Effect) → m ≤ n → IsQuiet m es → IsQuiet n es
IsQuiet-le m n es l h = record {
  connected = h.connected;
  failures = h.failures;
  evicted = h.evicted;
  attempts = h.attempts;
  dials = omega (arith, l, h.dials);
}

IsQuiet-if :
    {B : Type 0} (n : ℕ) (b : Bool) (p q : List Effect × B)
    → IsQuiet n p.0
    → IsQuiet n q.0
    → IsQuiet n (if b then p else q).0
IsQuiet-if n true p q h k = h
IsQuiet-if n false p q h k = k

try_address-IsQuiet :
    (answers : ℕ → Bool) (ip : String) (attempt left : ℕ)
    → IsQuiet left (try_address answers ip attempt left).0
try_address-IsQuiet answers ip attempt zero = silent-any 0
try_address-IsQuiet answers ip attempt (suc left) =
    let rest = try_address answers ip (suc attempt) left in
    let one = pause attempt ++ dialed ip ∷ [] in
    IsQuiet-if (suc left) (answers attempt) (one, true) (one ++ rest.0, rest.1)
      (IsQuiet-le 1 (suc left) one (omega arith) (dial-IsQuiet ip attempt))
      (IsQuiet-le (1 + left) (suc left) (one ++ rest.0) (omega arith) (
        IsQuiet-append 1 left one rest.0 (dial-IsQuiet ip attempt)
          (try_address-IsQuiet answers ip (suc attempt) left)))

tried-IsQuiet :
    (n : ℕ) (tried rest : List Effect × Bool)
    → IsQuiet 3 tried.0
    → IsQuiet n rest.0
    → IsQuiet (3 + n) (if tried.1 then tried else (tried.0 ++ rest.0, rest.1)).0
tried-IsQuiet n tried rest h k =
    IsQuiet-if (3 + n) tried.1 tried (tried.0 ++ rest.0, rest.1)
      (IsQuiet-le 3 (3 + n) tried.0 (omega arith) h) (IsQuiet-append 3 n tried.0 rest.0 h k)

connect_tcp-IsQuiet :
    (answers : String → ℕ → Bool) (ips : List String)
    → IsQuiet (3 * length ips) (connect_tcp_with_retry answers ips 2).0
unfolding connect_tcp_with_retry
connect_tcp-IsQuiet answers [] = silent-any 0
connect_tcp-IsQuiet answers (ip ∷ ips) =
    IsQuiet-le (3 + 3 * length ips) (3 * suc (length ips))
      (connect_tcp_with_retry answers (ip ∷ ips) 2).0 (omega arith)
      (tried-IsQuiet (3 * length ips) (try_address (answers ip) ip 0 3)
        (connect_tcp_with_retry answers ips 2) (try_address-IsQuiet (answers ip) ip 0 3)
        (connect_tcp-IsQuiet answers ips))

after_dial-IsQuiet :
    (b : Bool) (n : ℕ) (x : List Effect × Bool) → IsQuiet n x.0 → IsQuiet n (after_dial b x).0
after_dial-IsQuiet b n (es, true) h = IsQuiet-le (n + 0) n (es ++ profile_sent ∷ []) (omega arith) (
    IsQuiet-append n 0 es (profile_sent ∷ []) h (record {
      connected = refl;
      failures = refl;
      evicted = refl;
      attempts = refl;
      dials = omega arith;
    }))
after_dial-IsQuiet b n (es, false) h = h

dialled-IsQuiet :
    (b : Bool) (w : World) (r : Route)
    → IsQuiet
        (3 * length r.candidates)
        (after_dial b (connect_tcp_with_retry w.answers r.candidates 2)).0
dialled-IsQuiet b w r =
    after_dial-IsQuiet b (3 * length r.candidates) (connect_tcp_with_retry w.answers r.candidates 2)
      (connect_tcp-IsQuiet w.answers r.candidates)

pub establish-IsQuiet :
    (mode : AppMode) (w : World) (r : Route)
    → IsQuiet (3 * length r.candidates) (establish mode w r).0
establish-IsQuiet server w r = silent-any (3 * length r.candidates)
establish-IsQuiet lan w r =
    let n = 3 * length r.candidates in
    let dials = after_dial true (connect_tcp_with_retry w.answers r.candidates 2) in
    let here = if can_dial r then dials else ([], none) in
    let known = if w.is_tcp_connected then ([], some true) else here in
    IsQuiet-if n (not w.can_use_tcp) ([], none) known (silent-any n)
      (IsQuiet-if n w.is_tcp_connected ([], some true) here (silent-any n)
        (IsQuiet-if n (can_dial r) dials ([], none) (dialled-IsQuiet true w r) (silent-any n)))
establish-IsQuiet auto w r =
    let n = 3 * length r.candidates in
    let dials =
      after_dial (not (is_ws_configured w)) (connect_tcp_with_retry w.answers r.candidates 2) in
    let no_route : List Effect × Option Bool =
      ([], if is_ws_configured w then some false else none) in
    IsQuiet-if n (w.can_use_tcp && not w.is_tcp_connected) (if can_dial r then dials else no_route)
      ([], some w.is_tcp_connected)
      (IsQuiet-if n (can_dial r) dials no_route (dialled-IsQuiet (not (is_ws_configured w)) w r)
        (silent-any n))
      (silent-any n)

pub offers-IsQuiet : (w : World) (b : Bool) → IsQuiet 0 (offers w b)
offers-IsQuiet w b = record {
  connected = ground arith;
  failures = ground arith;
  evicted = ground arith;
  attempts = ground arith;
  dials = ground arith;
}
