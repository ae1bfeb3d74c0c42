-- ===== src/Connection/Signaling/Discarding.antt =====
-- What a call's end leaves of the queue of the signaling socket.
use ylp_software.Base.{
  ℕ, ◌≡◌, refl, Bool, true, false, not, ◌&&◌, String, Option, none, some, List, [], ◌∷◌, ◌++◌, map,
  filter, lookup, ◌+◌, ◌==◌, erase, leb, arith, string_same, nat_same,
}
use ylp_software.Connection.Signaling.Socket.{
  Kind, offer, answer, ice_candidate, handshake, other, Message, Queued, ConnectOptions, State,
  is_negotiation,
}
use ylp_software.Connection.Signaling.Queue.{
  is_to, is_stale_negotiation, discard_queued_negotiation_for, is_fresh,
}
use ylp_software.Connection.Signaling.Lifecycle.{on_open, is_current_socket}

-- A message that negotiates with this peer.
abbrev pub negotiates : String → Kind → Option String → Bool
negotiates peer offer (some to) = to == peer
negotiates peer answer (some to) = to == peer
negotiates peer ice_candidate (some to) = to == peer
negotiates peer kind to = false

-- The messages that a call's end and the lapse of time leave.
abbrev pub survivors : String → ℕ → List Queued → List Queued
survivors peer now qs =
    filter (λ q. leb now (q.created_at + 20000) && not (negotiates peer q.kind q.to)) qs

stale_negotiates :
    (peer : String) (k : Kind) (o : Option String)
    → (is_to peer o && is_negotiation k) ≡ negotiates peer k o
stale_negotiates peer offer none = refl
stale_negotiates peer offer (some to) = ground arith
stale_negotiates peer answer none = refl
stale_negotiates peer answer (some to) = ground arith
stale_negotiates peer ice_candidate none = refl
stale_negotiates peer ice_candidate (some to) = ground arith
stale_negotiates peer handshake none = refl
stale_negotiates peer handshake (some to) = ground arith
stale_negotiates peer (other kind) none = refl
stale_negotiates peer (other kind) (some to) = ground arith

filter-survivors :
    (peer : String) (now : ℕ) (qs : List Queued)
    → filter (is_fresh now) (filter (λ q. not (is_stale_negotiation peer q)) qs)
      ≡ survivors peer now qs
filter-survivors peer now [] = refl
filter-survivors peer now (q ∷ qs) =
    ground (arith, filter-survivors peer now qs, stale_negotiates peer q.kind q.to)

-- When a call with a peer is torn down and its socket then opens, exactly these are written, in
-- their order: the queued messages that are not older than 20 seconds and are not negotiation with
-- that peer. The queue is empty, and no candidate waits for the peer's key.
pub discard-on_open :
    (options : ConnectOptions) (i now : ℕ) (peer : String) (s : State)
    → is_current_socket s i ≡ true
    → let t = on_open options i now (discard_queued_negotiation_for peer s) in
      (t.wire ≡ s.wire ++ map (λ (q : Queued). q.payload) (survivors peer now s.outbound_queue))
      × (t.outbound_queue ≡ [])
      × (lookup peer t.pending_ice ≡ none)
unfolding on_open discard_queued_negotiation_for
discard-on_open options i now peer s c =
    ground (arith, lookup-erased peer s.pending_ice, filter-survivors peer now s.outbound_queue)
  where
    lookup-erased :
        (k : String) (m : List (String × List (Message × ℕ))) → lookup k (erase k m) ≡ none
    lookup-erased k [] = refl
    lookup-erased k ((j, w) ∷ m) = ground (arith, lookup-erased k m)
