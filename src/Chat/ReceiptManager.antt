-- ===== src/Chat/ReceiptManager.antt =====
-- `MessageReceiptManager` (features/chat/services/message-receipt-manager.ts), to which
-- `SyncPushFilter` (features/sync/services/push-filter.ts) defers.
use ylp_software.Base.{Bool, true, false, not, ◌||◌, List, [], ◌∷◌, Option, none, some}
use ylp_software.Model.{MessageStatusType, sending, sent, not_sent, delivered, read}

abbrev pub same_status : MessageStatusType → MessageStatusType → Bool
same_status sending sending = true
same_status sent sent = true
same_status not_sent not_sent = true
same_status delivered delivered = true
same_status read read = true
same_status _ _ = false

-- `getTransientStatuses`
abbrev pub transient_statuses : List MessageStatusType
transient_statuses = sending ∷ not_sent ∷ []

abbrev pub has_status : Option MessageStatusType → List MessageStatusType → Bool
has_status none l = false
has_status (some s) [] = false
has_status (some s) (t ∷ l) = same_status t s || has_status (some s) l

-- `shouldPushReceipt`; a row without a status is pushed.
unfoldable pub should_push_receipt : Option MessageStatusType → Bool
should_push_receipt status = not (has_status status transient_statuses)
