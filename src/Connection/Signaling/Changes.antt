-- ===== src/Connection/Signaling/Changes.antt =====
-- Sockets that are no longer the adapter's, after the network has changed.
use ylp_software.Base.{
  ℕ, ◌≤◌, ◌<◌, ◌≡◌, refl, true, none, List, [], ◌∷◌, All, arith, nat_same, string_same,
}
use ylp_software.Connection.Signaling.Socket.{ConnectOptions, connecting, State}
use ylp_software.Connection.Signaling.Lifecycle.{
  Event, connected_to, socket_opened, socket_failed, socket_closed, socket_dropped, socket_message,
  sending, discarding, key_available, asking_users, reconnect_due, heartbeat_due, heartbeat_late,
  network_changed, disconnecting, step, run,
}

-- A callback of a socket up to this epoch.
abbrev pub IsCallbackOf : ℕ → Event → Type 0
IsCallbackOf n (socket_opened o i now) = i ≤ n
IsCallbackOf n (socket_failed i) = i ≤ n
IsCallbackOf n (socket_closed i c j) = i ≤ n
IsCallbackOf n (socket_message i c now m) = i ≤ n
IsCallbackOf n _ = ⊥

without_socket : (s : State) (e : Event) (n : ℕ) → IsCallbackOf n e → s.socket ≡ none → step s e ≡ s
unfolding step
without_socket s (connected_to o b) n c h = elim c [ ]
without_socket s (socket_opened o i now) n c h = ground arith
without_socket s (socket_failed i) n c h = ground arith
without_socket s (socket_closed i b j) n c h = ground arith
without_socket s socket_dropped n c h = elim c [ ]
without_socket s (socket_message i p now m) n c h = ground arith
without_socket s (sending p m now) n c h = elim c [ ]
without_socket s (discarding peer) n c h = elim c [ ]
without_socket s (key_available p peer now) n c h = elim c [ ]
without_socket s asking_users n c h = elim c [ ]
without_socket s (reconnect_due b) n c h = elim c [ ]
without_socket s heartbeat_due n c h = elim c [ ]
without_socket s heartbeat_late n c h = elim c [ ]
without_socket s network_changed n c h = elim c [ ]
without_socket s (disconnecting code) n c h = elim c [ ]

other_socket :
    (s : State) (e : Event) (n : ℕ) → IsCallbackOf n e → n < s.socket_epoch → step s e ≡ s
unfolding step
other_socket s (connected_to o b) n c h = elim c [ ]
other_socket s (socket_opened o i now) n c h = ground arith
other_socket s (socket_failed i) n c h = ground arith
other_socket s (socket_closed i b j) n c h = ground arith
other_socket s socket_dropped n c h = elim c [ ]
other_socket s (socket_message i p now m) n c h = ground arith
other_socket s (sending p m now) n c h = elim c [ ]
other_socket s (discarding peer) n c h = elim c [ ]
other_socket s (key_available p peer now) n c h = elim c [ ]
other_socket s asking_users n c h = elim c [ ]
other_socket s (reconnect_due b) n c h = elim c [ ]
other_socket s heartbeat_due n c h = elim c [ ]
other_socket s heartbeat_late n c h = elim c [ ]
other_socket s network_changed n c h = elim c [ ]
other_socket s (disconnecting code) n c h = elim c [ ]

run-other_sockets :
    (s : State) (es : List Event) (n : ℕ)
    → All (IsCallbackOf n) es
    → n < s.socket_epoch
    → run s es ≡ s
unfolding run
run-other_sockets s [] n a h = refl
run-other_sockets s (e ∷ es) n (c, cs) h =
    rw (other_socket s e n c h) (run-other_sockets s es n cs h)

reset_epoch : (s : State) → s.socket_epoch < (step s network_changed).socket_epoch
unfolding step
reset_epoch s = ground arith

reconnected :
    (s : State) (options : ConnectOptions)
    → let t = step (step s network_changed) (connected_to options true) in
      (s.socket_epoch < t.socket_epoch)
      × (t.state ≡ connecting)
      × (t.outbound_queue ≡ s.outbound_queue)
      × (t.pending_ice ≡ s.pending_ice)
unfolding step
reconnected s options = ground arith

-- When the network has changed, nothing that a socket of before still reports has an effect: not
-- before the adapter connects again, and not after. The messages of the queue, and the candidates
-- that wait for a key, are kept through the change and the new connection.
pub network_changed-run :
    (s : State) (options : ConnectOptions) (before after : List Event)
    → All (IsCallbackOf s.socket_epoch) before
    → All (IsCallbackOf s.socket_epoch) after
    → let reset = step s network_changed in
      let t = run (step (run reset before) (connected_to options true)) after in
      (run reset before ≡ reset)
      × (t ≡ step reset (connected_to options true))
      × (t.state ≡ connecting)
      × (t.outbound_queue ≡ s.outbound_queue)
      × (t.pending_ice ≡ s.pending_ice)
network_changed-run s options before after b a =
    let reset = step s network_changed in
    let e = run-other_sockets reset before s.socket_epoch b (reset_epoch s) in
    let (n, st, q, p) = reconnected s options in
    let f = run-other_sockets (step reset (connected_to options true)) after s.socket_epoch a n in
    (e, rw (e, f) refl, rw (e, f) st, rw (e, f) q, rw (e, f) p)
