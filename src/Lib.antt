-- ===== src/Lib.antt =====
-- SAPOT: the mobile application's synchronisation with the server, its connections to peers and its
-- calls, and the synchronisation of the admin frontend.
--
-- The application keeps its conversations, messages, calls and receipts in a local database
-- (WatermelonDB) and exchanges rows with the server: `SyncService` pulls pages of changes, merges and
-- normalises them, and pushes the local changes. Peers are reached over WebRTC; `IceRestartController`
-- and `LivenessMonitor` watch a connection, `WsSignalingAdapter` carries its negotiation to the
-- signaling server, and the connect planning chooses how to dial. `ConnectionService` routes the call
-- messages of the peers, and `CallService` keeps the sessions of the calls. The admin frontend keeps a
-- queue of changes in the browser and pushes and pulls rows with a client of its own. Paths below are
-- from mobile-app/sapot-mobile-app/features, those of Admin from admin-frontend/sapot-admin.
--
--   Base, Base/*          Booleans, lists, maps and the falsy values that the other files use.
--   Model                 The enumerated columns (shared/core/database/model).
--   Sync/Timestamp        `toTimestamp` and `toInt`, over timestamps that are numbers, texts or absent.
--   Sync/Records          Rows and pages (sync/services/sync-service.ts, sync/api/sync.api.ts). A row
--                         has each column under its server name and its local name, as the source's
--                         types have; a column that is left out is `none` or `undefined`.
--   Sync/Merge, Pull      `pullFromServer`: `merge_by_id` and `merge_deleted` merge a page, `next_cursor`
--                         chooses the next round, `pull_pages` is the loop.
--   Sync/Normalize        `SyncPullNormalizer` and `MigrationGuard`.
--   Sync/Payload          `SyncPayloadBuilder.toServerPayload`, one function per table; RoundTrip has
--                         the columns of shared/core/database/schema.ts.
--   Sync/Push             `buildPushPayload`, `hasPayload` and `pushToServer`.
--   Sync/Hydrator         `PeerHydrator`, over the created rows of a pull.
--   Sync/Service          `syncNow`, `scheduleRetry`, `handleConnectivityChange` and `cleanup` as the
--                         function `step` on a state with the fields of `SyncService`.
--   Chat/ReceiptManager   `MessageReceiptManager` (chat/services).
--   Chat/Statuses         chat/repositories/message-status-repository.ts, on the rows of the table.
--   Chat/Receive          `ChatReceiveService` (chat/services) and the search for a conversation of two
--                         people in chat/repositories; each handler is one step.
--   Chat/AckTracker       `MessageAckTracker` (chat/services), as a function `step`.
--   Connection/IceRestart, Liveness   The two classes of shared/connection/adapters. Timers and offers
--                         in flight are parts of the state; what the classes emit is a list of effects.
--   Connection/Signaling  `WsSignalingAdapter` of shared/connection/adapters. Socket has its state and
--                         messages, Queue the sending and the queue, Lifecycle the callbacks of
--                         sockets and timers, as the function `step`. A socket and the promise of
--                         the `connect` that made it go by their epoch.
--   Connection/Connecting `connectToPeerImpl` of shared/connection/services/connection-service.ts, with
--                         what it calls: an attempt finds a `World`, and leaves a list of effects.
--   Connection/CallRouting  `CallMessageRouter` and the busy marker of `ConnectionService`
--                         (shared/connection/services): `handle`, `dispatch_call_result`,
--                         `handle_busy_reject`. The marker is read when a message comes and again
--                         when its notification has been shown.
--   Call/Audio            call/services/call-audio-service.ts, and the audio sessions of `CallService`.
--   Call/Store            `callSessions`: the map refers to session objects, which the operations share.
--   Call/Service          call/services/call-service.ts: the operations up to their first `await`.
--                         Service/Running has what follows an `await`: a `Task` is an operation that
--                         waits, `resume` goes on with an `Outcome`, and `step` starts an operation,
--                         hands it an event or resumes any one that waits.
--   Admin/Queue, Collect  lib/sync/mutationQueue.ts, `push` of lib/sync/syncEngine.ts, and the two
--                         `collectChanges`.
--   Admin/Apply, Pull     lib/sync/applyChanges.ts, and `pull` of lib/sync/syncEngine.ts.
--   Connection/Parsing    shared/connection/adapters/ws-message-parser.ts, and the frame that
--                         `sendMessage` of `WsSignalingAdapter` makes of a negotiation message.
--   Connection/Planning   shared/connection/services/connect-planning.ts.
--
-- The parts meet where the source's do: `CallService` sets and clears the busy marker by which the
-- router refuses other calls, with the functions that the router's model has for it; the pull merges
-- what the server answers, the normaliser reads the merged rows, the push asks the receipt manager
-- which receipts leave the device, and the columns that the normaliser fills are those that the
-- payload builder reads.
--
-- Each component that reacts to callers, timers and promises is a function `step` on its state and an
-- event, and `run` on lists of events: a theorem about `run` is about every interleaving of them.
--
-- Bounds. The loop of the pull is recursion on the 50 rounds that the source allows, so it needs no
-- further fuel. The pull of the admin frontend is recursion on fuel, which is enough if it exceeds
-- what the cursors of the server are above the last pull; a connect is recursion on two attempts, which
-- are all that its retry allows. The retries' delays take the random factor as a number of
-- thousandths from 800 to 1200. Timestamps are natural numbers of milliseconds or NaN.
--
-- Parameters. `JSON.parse`, the server, the queries of the local database, `Date.parse`, `Number`, the
-- decryption under the migration keys, the encryption of signaling messages and the classification of
-- incoming ones are arguments of the definitions that use them; a call that throws answers `none`. The
-- order on texts is one too. What the database, the peer and media services and the connection answer
-- to an operation on a call is the `Outcome` with which it is resumed, and what they answer to a chat
-- message that is received is an `Answers`.
--
-- Not modelled: user interface, native modules, the cryptographic libraries, the writing of logs, the
-- rows and texts of the call log, what the eviction of an adapter does to a call that is active with
-- the peer, the database's own bookkeeping (`synchronize` of WatermelonDB calls pull and push in that
-- order), and the services on top of the connections.
pub mod Admin
pub mod Base
pub mod Call
pub mod Chat
pub mod Connection
pub mod Model
pub mod Sync
