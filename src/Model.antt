-- ===== src/Model.antt =====
-- The enums of the mobile app's local database
-- (mobile-app/sapot-mobile-app/features/shared/core/database/model).
pub data MessageStatusType : Type 0 where
  sending sent not_sent delivered read : MessageStatusType

pub data CallType : Type 0 where
  audio video : CallType

pub data CallStatus : Type 0 where
  initiating missed completed rejected busy : CallStatus

pub data MessageType : Type 0 where
  text file call_log sms : MessageType

pub data ConversationType : Type 0 where
  direct solo group sms : ConversationType

pub MessageStatusType-discrete : Discrete MessageStatusType
MessageStatusType-discrete = hlevel
