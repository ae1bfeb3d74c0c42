-- ===== src/Connection/Connecting/Ends.antt =====
-- A connect comes to an end, and what it tells of it.
use ylp_software.Base.{
  ◌≡◌, refl, ℕ, suc, ◌+◌, ◌*◌, Bool, true, false, Option, none, some, List, [], ◌∷◌, ◌++◌, count,
  count-append, length, get_or_else, if◌then◌else◌, arith,
}
use ylp_software.Connection.Planning.{resolve_signaling_transport, should_retry_connect}
use ylp_software.Connection.Connecting.{
  Signal, established, failed, offer_failed, timed_out, connected, failure, timeout, Effect,
  state_emitted, polite_set, evict_webrtc, World, Route, Result, resolved, rejected, out_of_fuel,
  transport_of, establish_tcp_for_mode, settle, evict_tcp, give_up_or_retry, conclude, offers,
  negotiate_webrtc_connection, negotiate_established, connect_to_peer,
}
use ylp_software.Connection.Connecting.Dialling.{
  tells_connected, tells_failure, tells_connecting, is_eviction, is_dial, HasEnded, HasEnded-most,
  HasEnded-quiet, IsQuiet, establish-IsQuiet, offers-IsQuiet,
}

-- One attempt more, which is followed by `again` only where it retries.
module _ (tries evictions most : ℕ) (w : World) (r : Route) (retry_count : ℕ)
    (again : Result × List Effect) where
  -- The next attempt ends, if the retry count allows one.
  abbrev NextEnds : Type 0
  NextEnds =
      should_retry_connect retry_count (transport_of w) ≡ true
      → HasEnded tries evictions most again.0 again.1

  -- What precedes a retry: one eviction, which tells of a failure.
  record IsEviction (es : List Effect) : Type 0 where
    connected : count tells_connected es ≡ 0
    failures : count tells_failure es ≡ 1
    evicted : count is_eviction es ≡ 1
    attempts : count tells_connecting es ≡ 0
    dials : count is_dial es ≡ 0

  retried-HasEnded :
      (before : List Effect)
      → IsEviction before
      → HasEnded tries evictions most again.0 again.1
      → HasEnded tries (suc evictions) most again.0 (before ++ again.1)
  retried-HasEnded before h k = record {
    ended = k.ended;
    told = omega (arith, count-append tells_connected before again.1, h.connected, k.told);
    failures = omega (
      arith,
      count-append tells_failure before again.1,
      count-append is_eviction before again.1,
      h.failures,
      h.evicted,
      k.failures,
    );
    evicted = omega (arith, count-append is_eviction before again.1, h.evicted, k.evicted);
    attempts = omega (arith, count-append tells_connecting before again.1, h.attempts, k.attempts);
    dials = omega (arith, count-append is_dial before again.1, h.dials, k.dials);
  }

  give_up_or_retry-HasEnded :
      (b : Bool) (before last : List Effect)
      → (b ≡ true → HasEnded tries evictions most again.0 again.1)
      → IsEviction before
      → HasEnded tries (suc evictions) most rejected last
      → HasEnded tries
          (suc evictions)
          most
          (give_up_or_retry b before last again).0
          (give_up_or_retry b before last again).1
  give_up_or_retry-HasEnded true before last n h k = retried-HasEnded before h (n refl)
  give_up_or_retry-HasEnded false before last n h k = k

  evictions-IsEviction : IsEviction (evict_webrtc w true ++ evict_tcp r)
  evictions-IsEviction = record {
    connected = ground arith;
    failures = ground arith;
    evicted = ground arith;
    attempts = ground arith;
    dials = ground arith;
  }

  conclude-HasEnded :
      (verdict : Signal)
      → NextEnds
      → HasEnded tries
          (suc evictions)
          most
          (conclude retry_count w r verdict again).0
          (conclude retry_count w r verdict again).1
  conclude-HasEnded established n = record {
    ended = refl;
    told = refl;
    failures = omega arith;
    evicted = omega arith;
    attempts = omega arith;
    dials = omega arith;
  }
  conclude-HasEnded failed n =
      give_up_or_retry-HasEnded (should_retry_connect retry_count (transport_of w))
        (evict_webrtc w true ++ evict_tcp r) (state_emitted failure (transport_of w) w.mode ∷ []) n
        evictions-IsEviction
        (record {
          ended = refl;
          told = refl;
          failures = omega arith;
          evicted = omega arith;
          attempts = omega arith;
          dials = omega arith;
        })
  conclude-HasEnded timed_out n =
      give_up_or_retry-HasEnded (should_retry_connect retry_count (transport_of w))
        (evict_webrtc w true ++ evict_tcp r) (state_emitted timeout (transport_of w) w.mode ∷ []) n
        evictions-IsEviction
        (record {
          ended = refl;
          told = refl;
          failures = omega arith;
          evicted = omega arith;
          attempts = omega arith;
          dials = omega arith;
        })
  conclude-HasEnded offer_failed n =
      give_up_or_retry-HasEnded (should_retry_connect retry_count (transport_of w))
        (evict_webrtc w true)
        (evict_webrtc w false ++ state_emitted failure (transport_of w) w.mode ∷ []) n
        (record {
          connected = refl;
          failures = refl;
          evicted = refl;
          attempts = refl;
          dials = refl;
        })
        (record {
          ended = refl;
          told = refl;
          failures = omega arith;
          evicted = omega arith;
          attempts = omega arith;
          dials = omega arith;
        })

  negotiate-HasEnded :
      (b : Bool)
      → NextEnds
      → HasEnded
          (suc tries)
          (suc evictions)
          most
          (negotiate_webrtc_connection retry_count w r b again).0
          (negotiate_webrtc_connection retry_count w r b again).1
  unfolding negotiate_webrtc_connection
  negotiate-HasEnded b n =
      let verdict = get_or_else (settle none w.signals) timed_out in
      let c = conclude-HasEnded verdict n in
      let e = conclude retry_count w r verdict again in
      let k =
        HasEnded-quiet 0 tries (suc evictions) most e.0 (offers w b) e.1 (offers-IsQuiet w b) c in
      record {
        ended = k.ended;
        told = omega (arith, k.told);
        failures = omega (arith, k.failures);
        evicted = omega (arith, k.evicted);
        attempts = omega (arith, k.attempts);
        dials = omega (arith, k.dials);
      }

  negotiate_established-HasEnded :
      (x : List Effect × Option Bool)
      → NextEnds
      → IsQuiet (3 * length r.candidates) x.0
      → HasEnded
          (suc tries)
          (suc evictions)
          (3 * length r.candidates + most)
          (negotiate_established retry_count w r again x).0
          (negotiate_established retry_count w r again x).1
  negotiate_established-HasEnded (es, none) n h = record {
    ended = refl;
    told = omega (arith, h.connected);
    failures = omega (arith, h.failures);
    evicted = omega (arith, h.evicted);
    attempts = omega (arith, h.attempts);
    dials = omega (arith, h.dials);
  }
  negotiate_established-HasEnded (es, some b) n h =
      let e = negotiate_webrtc_connection retry_count w r b again in
      HasEnded-quiet (3 * length r.candidates) (suc tries) (suc evictions) most e.0 es e.1 h
        (negotiate-HasEnded b n)

  attempt-HasEnded :
      (b : Bool)
      → NextEnds
      → let e =
          if b
          then (resolved, state_emitted connected (transport_of w) w.mode ∷ [])
          else negotiate_established retry_count w r again (establish_tcp_for_mode w r) in
        HasEnded
          (suc tries)
          (suc evictions)
          (3 * length r.candidates + most)
          e.0
          (polite_set r.is_polite ∷ e.1)
  unfolding establish_tcp_for_mode
  attempt-HasEnded true n = record {
    ended = refl;
    told = refl;
    failures = omega arith;
    evicted = omega arith;
    attempts = omega arith;
    dials = omega arith;
  }
  attempt-HasEnded false n =
      let k =
        negotiate_established-HasEnded (establish_tcp_for_mode w r) n
          (establish-IsQuiet w.mode w r) in
      record {
        ended = k.ended;
        told = k.told;
        failures = k.failures;
        evicted = k.evicted;
        attempts = k.attempts;
        dials = k.dials;
      }

never-retries : (w : World) → should_retry_connect 1 (transport_of w) ≡ true → ⊥
unfolding should_retry_connect resolve_signaling_transport
never-retries w h = ground (arith, h)

-- Whatever its attempts find and hear, a connect of a caller ends after at most two negotiations, two
-- evictions of the peer's adapter and six dials for each address of the peer. If it is fulfilled, it has
-- told of the connection exactly once, and of a failure at most as often as it has evicted the adapter;
-- if it is rejected, it has told of no connection, and of a failure or a timeout at most once more than
-- it has evicted the adapter.
pub connect_to_peer-HasEnded :
    (worlds : ℕ → World) (r : Route)
    → HasEnded 2 2
        (6 * length r.candidates)
        (connect_to_peer 2 worlds r 0).0
        (connect_to_peer 2 worlds r 0).1
unfolding connect_to_peer
connect_to_peer-HasEnded worlds r =
    let l = 3 * length r.candidates in
    let again = connect_to_peer 1 worlds r 1 in
    let second =
      attempt-HasEnded 0 0 0 (worlds 1) r 1 (out_of_fuel, []) (worlds 1).is_webrtc_connected
        (λ h. absurd (never-retries (worlds 1) h)) in
    HasEnded-most 2 2 (l + (l + 0)) (6 * length r.candidates) (connect_to_peer 2 worlds r 0).0
      (connect_to_peer 2 worlds r 0).1 (omega arith)
      (attempt-HasEnded 1 1 (l + 0) (worlds 0) r 0 again (worlds 0).is_webrtc_connected
        (λ h. second))
