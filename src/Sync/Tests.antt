-- ===== src/Sync/Tests.antt =====
-- The theorems of the synchronisation, applied to concrete rows and runs.
use ylp_software.Base.{
  String, any, truthy, contains, string_same, ℕ, ◌≡◌, refl, ◌≢◌, true, false, none, some, List, [],
  ◌∷◌, not, arith, length, All, ◌&&◌,
}
use ylp_software.Model.{sending, sent, initiating}
use ylp_software.Sync.Records.{Changes, no_changes, Page, no_entity_changes}
use ylp_software.Sync.Pull.{next_cursor, max_iterations, pull_from_server}
use ylp_software.Sync.Pull.Pages.{fetched, head_timestamp}
use ylp_software.Sync.Pull.Laws.{last_page, pull_from_server-IsEndless}
use ylp_software.Sync.Normalize.{compute_skips, normalized_changes, normalize_pull_changes}
use ylp_software.Sync.Normalize.Laws.{CreatesFresh, normalize_pull_changes-CreatesFresh}
use ylp_software.Sync.Payload.RoundTrip.{KeepsServerRows, payload-normalize}
use ylp_software.Sync.Push.{
  PushContext, PushPayload, guest_users, build_push_payload, push_changes, push_rejected,
  self_ids_of, excluded_of,
}
use ylp_software.Sync.Push.Laws.{Accounts, build_push_payload-Accounts}
use ylp_software.Sync.Push.Requests.{IsNotSentFor, build_push_payload-IsNotSentFor}
use ylp_software.Sync.Service.{
  State, unset, Event, sync_now, finished, timer_fired, completed, other_error, run,
}
use ylp_software.Sync.Service.Retries.{
  HasBoundedRetries, Failure, answered_conflict, failed_otherwise, run-HasBoundedRetries,
}
use ylp_software.Sync.Service.Lifecycle.{IsAnnounced, run-IsAnnounced}
use ylp_software.Sync.Hydrator.{hydrate}
use ylp_software.Sync.Hydrator.Missing.{mentions, is_outcome, hydrate-missing}
use ylp_software.Sync.Examples.{
  rows_among, runtime, conversation, participant, message, call, call_participant, receipt, page,
  endless_pages, tables, device,
}

endless_pages-IsEndless :
    (i cursor : ℕ) → (p : Page) × (endless_pages i cursor 1 ≡ some p) × (next_cursor p ≢ none)
unfolding next_cursor
endless_pages-IsEndless i cursor = (page "same" true (some 5) 100, refl, λ e. ground (arith, e))

pull_from_server-IsEndless_example :
    (pages : List Page) × (merged : Changes) × (timestamp : ℕ) × (pull_from_server endless_pages 1
        (some 7)
      ≡ some (merged, timestamp))
    × (fetched endless_pages 1 max_iterations 0 7 ≡ some pages)
    × (length pages ≡ max_iterations)
    × (head_timestamp pages ≡ some timestamp)
    × (p : Page) × (last_page pages ≡ some p)
    × (next_cursor p ≢ none)
pull_from_server-IsEndless_example =
    pull_from_server-IsEndless endless_pages 1 endless_pages-IsEndless (some 7)

-- One conversation that the device has, and one that it lacks.
abbrev arriving : Changes
arriving = record no_changes {
  conversations = record no_entity_changes {
    created = conversation "c1" "known" ∷ conversation "c2" "new" ∷ [];
  };
  messages = record no_entity_changes {
    updated = message "m1" "ecdh:y" ∷ message "m2" "plain" ∷ [];
  };
}

unguarded :
    normalize_pull_changes runtime device none false arriving
    ≡ (false, some (normalized_changes runtime device none [] arriving))
unfolding normalize_pull_changes compute_skips
unguarded = refl

normalize_pull_changes-CreatesFresh_example :
    CreatesFresh runtime none tables arriving (normalized_changes runtime device none [] arriving)
    × (false ≡ false)
normalize_pull_changes-CreatesFresh_example =
    normalize_pull_changes-CreatesFresh runtime none tables device false false arriving
      (normalized_changes runtime device none [] arriving)
      (record {
        conversations = λ ids. refl;
        conversation_participants = λ ids. refl;
        messages = λ ids. refl;
        calls = λ ids. refl;
        call_participants = λ ids. refl;
        message_receipts = λ ids. refl;
      })
      unguarded

payload-normalize_example :
    KeepsServerRows runtime none
      (conversation "c1" "title")
      (participant "p1" "u1")
      (message "m1" "hello")
      (call "l1" initiating)
      (call_participant "q1" "l1")
      (receipt "r1" "m1" sent)
payload-normalize_example =
    payload-normalize runtime none (conversation "c1" "title") (participant "p1" "u1")
      (message "m1" "hello") (call "l1" initiating) (call_participant "q1" "l1")
      (receipt "r1" "m1" sent)

abbrev context : PushContext
context = record {
  runtime = runtime;
  current_user_id = some "u1";
  find_self = λ user. some (some "c1");
  get_by_ids = none;
}

-- A receipt that is sent to oneself, one that is under way, and a call that is being set up.
abbrev leaving : Changes
leaving = record no_changes {
  messages = record no_entity_changes { created = message "m1" "note" ∷ [] };
  calls = record no_entity_changes { created = call "l1" initiating ∷ [] };
  call_participants = record no_entity_changes { created = call_participant "q1" "l1" ∷ [] };
  message_receipts = record no_entity_changes {
    created = receipt "r1" "m1" sent ∷ receipt "r2" "m2" sending ∷ [];
  };
}

abbrev payload : PushPayload
payload = record {
  changes =
      push_changes runtime (self_ids_of context leaving) (excluded_of context leaving) leaving;
  guest_users = [];
  rejected =
      push_rejected runtime (self_ids_of context leaving) (excluded_of context leaving) leaving;
}

payload_built : build_push_payload context leaving ≡ some payload
unfolding build_push_payload guest_users
payload_built = refl

build_push_payload-Accounts_example : Accounts leaving payload "l1"
build_push_payload-Accounts_example =
    build_push_payload-Accounts context leaving payload "l1" refl payload_built

build_push_payload-IsNotSentFor_example :
    All (IsNotSentFor "m1") payload.changes.message_receipts.created
    × All (IsNotSentFor "m1") payload.changes.message_receipts.updated
build_push_payload-IsNotSentFor_example =
    build_push_payload-IsNotSentFor context leaving payload "c1" "m1"
      (record { user = "u1"; known = refl; named = refl; found = refl; exists = refl }) refl refl
      payload_built

abbrev ready : State
ready = record {
  is_syncing = false;
  retry_attempts = 0;
  retry_timer = unset;
  last_pulled_at = some 9;
  has_migration_keys = false;
  has_listeners = true;
  emitted = [];
}

abbrev syncing : State
syncing = record ready { is_syncing = true }

abbrev stormy : List Event
stormy = sync_now ∷ finished other_error 1000 ∷ timer_fired ∷ finished completed 900 ∷ []

run-HasBoundedRetries_example : HasBoundedRetries (run ready stormy)
run-HasBoundedRetries_example =
    run-HasBoundedRetries ready stormy
      (tt, ((omega arith, omega arith), (tt, ((omega arith, omega arith), tt))))
      (record { attempts = omega arith; delay = tt })

-- Six failures, of which the first is a conflict.
abbrev storm : List (Failure × ℕ)
storm =
    (answered_conflict, 1000)
    ∷ (failed_otherwise, 900)
    ∷ (failed_otherwise, 900)
    ∷ (failed_otherwise, 900)
    ∷ (failed_otherwise, 900)
    ∷ (failed_otherwise, 900)
    ∷ []

run-IsAnnounced_example : IsAnnounced (run ready stormy)
run-IsAnnounced_example = run-IsAnnounced ready stormy (tt, (tt, (tt, (tt, tt)))) (refl, refl)

-- A known and an unknown peer.
abbrev mentioning : Changes
mentioning = record no_changes {
  conversation_participants = record no_entity_changes {
    created = participant "p1" "u1" ∷ participant "p2" "u2" ∷ [];
  };
}

abbrev known_peers : List String
known_peers = "u1" ∷ []

hydrate-missing_example :
    any (is_outcome (λ k. false) (λ k. true) "u2") (
      hydrate
        (record {
          peers = rows_among known_peers;
          get_or_create = some (λ k. false);
          save = some (λ k. true);
        })
        mentioning)
    ≡ (truthy "u2" && mentions "u2" mentioning && not (contains "u2" known_peers))
hydrate-missing_example =
    hydrate-missing known_peers (rows_among known_peers) (λ k. false) (λ k. true) mentioning "u2"
      (λ ids. refl)
