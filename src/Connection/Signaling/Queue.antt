-- ===== src/Connection/Signaling/Queue.antt =====
-- The outbound queue of `WsSignalingAdapter` and the ICE candidates that wait for a peer's key.
use ylp_software.Base.{
  ℕ, ◌+◌, Bool, false, not, ◌&&◌, String, Option, none, some, List, [], ◌∷◌, ◌++◌, map, filter,
  length, ltb, leb, lookup, insert, erase, get_or_else, ◌==◌, string_same, if◌then◌else◌,
}
use ylp_software.Connection.Signaling.Socket.{
  Kind, ice_candidate, Message, Frame, plain, encrypted, get_active_users, Queued, State,
  is_connected, transmit, is_negotiation, is_ice, is_signaling_message,
}

abbrev pub max_queue_size : ℕ
max_queue_size = 100

abbrev pub queue_ttl_ms : ℕ
queue_ttl_ms = 20000

-- `encryptSignalingPayload` with the context and the keys of the moment: `none` without a context;
-- for a peer whose key is not known the answer is `none`.
abbrev pub Cipher : Type 0
Cipher = Option (Message → String → Option String)

abbrev pub tail : List Queued → List Queued
tail [] = []
tail (q ∷ qs) = qs

-- `enqueueMessage`: a full queue loses its oldest message.
unfoldable pub enqueue_message : Queued → State → State
enqueue_message q s = record s {
  outbound_queue =
      (if leb max_queue_size (length s.outbound_queue)
        then tail s.outbound_queue
        else s.outbound_queue)
      ++ q ∷ [];
}

-- A frame is written to an open socket, and waits otherwise.
unfoldable pub dispatch : Frame → ℕ → Kind → Option String → State → State
unfolding enqueue_message
dispatch f now kind to s =
    if is_connected s
    then transmit f s
    else enqueue_message (record { payload = f; created_at = now; kind = kind; to = to }) s

-- The part of `sendMessage` without encryption.
unfoldable pub send_plain : Message → ℕ → State → State
unfolding dispatch
send_plain m now s = dispatch (plain m) now m.kind m.to s

unfoldable pub hold_ice : String → Message → ℕ → State → State
hold_ice to m now s = record s {
  pending_ice = insert to (get_or_else (lookup to s.pending_ice) [] ++ (m, now) ∷ []) s.pending_ice;
}

-- The part of `sendMessage` after `encryptSignalingPayload`.
unfoldable pub send_encrypted : Option String → Message → ℕ → State → State
unfolding dispatch send_plain hold_ice
send_encrypted none m now s =
    if is_ice m.kind then hold_ice (get_or_else m.to "") m now s else send_plain m now s
send_encrypted (some enc) m now s =
    dispatch (encrypted m.kind (get_or_else m.to "") (get_or_else m.sender "") enc m.credential) now
      m.kind (some (get_or_else m.to "")) s

-- `sendMessage`
unfoldable pub send_message : Cipher → Message → ℕ → State → State
unfolding send_plain send_encrypted
send_message none m now s = send_plain m now s
send_message (some encrypt) m now s =
    if is_signaling_message m && is_negotiation m.kind
    then send_encrypted (encrypt m (get_or_else m.to "")) m now s
    else send_plain m now s

-- `item.to === peerId`
abbrev pub is_to : String → Option String → Bool
is_to peer none = false
is_to peer (some to) = to == peer

abbrev pub is_stale_negotiation : String → Queued → Bool
is_stale_negotiation peer q = is_to peer q.to && is_negotiation q.kind

-- `discardQueuedNegotiationFor`
unfoldable pub discard_queued_negotiation_for : String → State → State
discard_queued_negotiation_for peer s = record s {
  outbound_queue = filter (λ q. not (is_stale_negotiation peer q)) s.outbound_queue;
  pending_ice = erase peer s.pending_ice;
}

-- A held candidate, under the key if there is one now.
abbrev pub sealed : String → Message → Option String → Frame
sealed peer m none = plain m
sealed peer m (some enc) = encrypted ice_candidate peer (get_or_else m.sender "") enc none

abbrev pub enc_of : Cipher → String → Message → Option String
enc_of none peer m = none
enc_of (some encrypt) peer m = encrypt m peer

-- The loop of `flushPendingIce`; a candidate that cannot be sent joins the queue, however full.
unfoldable pub release_ice : Cipher → String → List (Message × ℕ) → State → State
release_ice cipher peer [] s = s
release_ice cipher peer ((m, created_at) ∷ items) s =
    let f = sealed peer m (enc_of cipher peer m) in
    release_ice cipher peer items (
      if is_connected s then transmit f s else record s {
        outbound_queue =
            s.outbound_queue
            ++ record { payload = f; created_at = created_at; kind = ice_candidate; to = some peer }
              ∷ [];
      })

abbrev pub is_valid_ice : ℕ → Message × ℕ → Bool
is_valid_ice now (m, created_at) = ltb now (created_at + queue_ttl_ms)

abbrev pub flush_items : Cipher → String → ℕ → Option (List (Message × ℕ)) → State → State
flush_items cipher peer now none s = s
flush_items cipher peer now (some []) s = s
flush_items cipher peer now (some (x ∷ xs)) s =
    let t = release_ice cipher peer (filter (is_valid_ice now) (x ∷ xs)) s in
    record t { pending_ice = erase peer t.pending_ice }

-- `flushPendingIce`, which is also `notifyPeerKeyAvailable`
unfoldable pub flush_pending_ice : Cipher → String → ℕ → State → State
unfolding release_ice
flush_pending_ice cipher peer now s = flush_items cipher peer now (lookup peer s.pending_ice) s

-- `sendGetActiveUsers`
unfoldable pub send_get_active_users : State → State
send_get_active_users s = if is_connected s then transmit get_active_users s else s

abbrev pub is_fresh : ℕ → Queued → Bool
is_fresh now q = not (ltb (q.created_at + queue_ttl_ms) now)

-- `flushQueue`
unfoldable pub flush_queue : ℕ → State → State
flush_queue now s =
    if is_connected s
    then record s {
      wire = s.wire ++ map (λ (q : Queued). q.payload) (filter (is_fresh now) s.outbound_queue);
      outbound_queue = [];
    }
    else s
