-- ===== src/Outbox.antt =====
-- The outbox of Discord messages about reservations: what src/lib/discord-reservation-outbox-initial.ts
-- and src/lib/discord-reservation-outbox-sync.ts share.
pub mod Payload
pub mod SyncContracts
pub mod InitialContracts
pub mod Initial
pub mod Sync
pub mod Summary
use info_room_reservation_si.Prelude.{ℕ, Bool, Option, List, [], ◌∷◌, Text}
use info_room_reservation_si.StudyPeriods.{StudyPeriod}
use info_room_reservation_si.Reservations.{ReservationStatus}

-- `DiscordReservationSnapshot`, as far as the outbox reads it or passes it on
pub record DiscordReservationSnapshot : Type 0 where
  pub capacity : ℕ
  pub close_time : Text
  pub confirmed_count : ℕ
  pub date : Text
  pub id : Text
  pub name : Text
  pub reason : Option Text
  pub status : ReservationStatus
  pub student_number : Text
  pub study_period : StudyPeriod
  pub user_id : Text

pub data SnapshotResult : Type 0 where
  not_found : SnapshotResult
  ready stale : DiscordReservationSnapshot → SnapshotResult

-- `DiscordBotDeliveryResult`: the identifier of the message, or the code and the message of the error
pub data DeliveryResult : Type 0 where
  sent : Text → DeliveryResult
  failed unknown : Text → Text → DeliveryResult

pub record ApplicationConfig : Type 0 where
  pub bot_token : Text
  pub channel_id : Text
  pub guild_id : Text

-- Reading the configuration: there is one or none, or it throws a ServerEnvError or another error.
pub data ConfigRead : Type 0 where
  configured : ApplicationConfig → ConfigRead
  unconfigured : ConfigRead
  invalid broken : Text → ConfigRead
