-- ===== src/Notifications/Rows.antt =====
-- The outbox and the devices (prisma/schema.prisma), with the columns that the dispatch reads or writes.
use smartpig_backend.Common.{ℕ, Option, List, String}

pub data NotificationStatus : Type 0 where
  pending sending sent failed skipped : NotificationStatus

pub data AppPlatform : Type 0 where
  ios android : AppPlatform

pub record PushTarget : Type 0 where
  pub platform : Option AppPlatform
  pub max_app_version : Option String

pub record Ticket : Type 0 where
  pub ticket_id : String
  pub device_id : ℕ

-- What the column `error` tells. Its text joins, masks and cuts the messages.
pub data PushError : Type 0 where
  no_device interrupted : PushError
  expo : Option ℕ → String → PushError
  ticket : String → String → PushError

pub record PushNotification : Type 0 where
  pub id : ℕ
  pub user_id : ℕ
  -- `readPushData(data).target`
  pub target : Option PushTarget
  pub status : NotificationStatus
  -- `ticketId` is that of the first.
  pub tickets : List Ticket
  pub error : List PushError
  pub attempts : ℕ
  pub sent_at : Option ℕ
  pub created_at : ℕ
  pub updated_at : ℕ

pub record PushDevice : Type 0 where
  pub id : ℕ
  pub user_id : ℕ
  pub token : String
  pub platform : AppPlatform
  pub app_version : Option String
  pub disabled_at : Option ℕ

-- The tables, and the instant until which the job pauses.
pub record PushDb : Type 0 where
  pub notifications : List PushNotification
  pub devices : List PushDevice
  pub paused_until : ℕ
