-- ===== src/Database.antt =====
-- The tables that the services read and write, prisma/schema.prisma, as far as they use them.
use info_room_reservation_si.Prelude.{
  ℕ, Bool, ◌||◌, ◌&&◌, Option, none, some, List, [], ◌∷◌, ◌++◌, any, Text, codes, text_eq,
  if◌then◌else◌, ◌≡◌, refl, ◌⊎◌, inl, inr,
}
use info_room_reservation_si.StudyPeriods.{StudyPeriod, parse_study_period}
use info_room_reservation_si.PeriodSettings.{PeriodSettingSnapshot}
use info_room_reservation_si.Reservations.{
  BookingStatus, active, restricted, banned, shadow_banned, ReservationStatus, cancelled, no_show,
  Reservation, Exception, identity_conflict, invalid_stored_value, Try, ok, throw,
}

-- The role that the row-level policies of a transaction see.
pub data DatabaseActorRole : Type 0 where
  admin student system : DatabaseActorRole

pub record DatabaseActor : Type 0 where
  pub id : Option Text
  pub role : DatabaseActorRole

pub record ReservationRow : Type 0 where
  pub date : Text
  pub id : Text
  pub reason : Option Text
  pub status : Text
  pub study_period : Text
  pub user_id : Text

pub record UserRow : Type 0 where
  pub booking_status : Text
  pub id : Text
  pub restricted_until : Option ℕ
  pub restriction_reason : Option Text
  pub role : Text
  pub shadow_ban_profile : Text
  pub student_number : Text

pub record MessageRow : Type 0 where
  pub created_at : ℕ
  pub nonce : Text
  pub reservation_id : Text

-- The values of the flat objects that are stored as JSON.
pub data JsonValue : Type 0 where
  json_text : Text → JsonValue
  json_number : ℕ → JsonValue
  json_instant : ℕ → JsonValue
  json_null : JsonValue

abbrev pub Json : Type 0
Json = List (Text × JsonValue)

pub record AdminActionRow : Type 0 where
  pub action : Text
  pub actor_id : Text
  pub after : Json
  pub before : Json
  pub id : Text
  pub ip_hash : Text
  pub reason : Text
  pub reservation_id : Option Text
  pub target_user_id : Text

pub record AuditLogRow : Type 0 where
  pub action : Text
  pub actor_id : Text
  pub detail : Json
  pub user_id : Text

pub record SanctionRow : Type 0 where
  pub actor_id : Text
  pub ends_at : Option ℕ
  pub kind : Text
  pub reason : Text
  pub revoked_at : Option ℕ
  pub revoked_by_id : Option Text
  pub revoked_reason : Option Text
  pub source_action_id : Text
  pub status : Text
  pub user_id : Text

pub record Database : Type 0 where
  pub admin_actions : List AdminActionRow
  pub audit_logs : List AuditLogRow
  pub context : DatabaseActor
  pub messages : List MessageRow
  pub period_settings : List PeriodSettingSnapshot
  pub reservations : List ReservationRow
  pub sanctions : List SanctionRow
  pub users : List UserRow

infixl 5 ◌>>=◌
abbrev pub ◌>>=◌ {ℓ κ} : {A : Type ℓ} {B : Type κ} → Try A → (A → Try B) → Try B
throw e >>= f = throw e
ok a >>= f = f a

pub Try-cases :
    {A : Type 0} (t : Try A) → ((e : Exception) × (t ≡ throw e)) ⊎ ((a : A) × (t ≡ ok a))
Try-cases (throw e) = inl (e, refl)
Try-cases (ok a) = inr (a, refl)

-- `@@unique([userId, date, studyPeriod])`
unfoldable pub has_identity : Text → Text → Text → ReservationRow → Bool
has_identity user_id date period row =
    text_eq row.user_id user_id && (text_eq row.date date && text_eq row.study_period period)

-- Inserting fails on a double key or identity; that error has the code P2002.
unfoldable pub insert_reservation : ReservationRow → Database → Try Database
insert_reservation row s =
    if any (λ r. text_eq r.id row.id || has_identity row.user_id row.date row.study_period r)
      s.reservations
    then throw identity_conflict
    else ok (record s { reservations = s.reservations ++ row ∷ [] })

-- A message has its reservation's key, and a nonce of its own.
unfoldable pub insert_message : MessageRow → Database → Try Database
insert_message message s =
    if any (λ m. text_eq m.reservation_id message.reservation_id || text_eq m.nonce message.nonce)
      s.messages
    then throw identity_conflict
    else ok (record s { messages = s.messages ++ message ∷ [] })

unfoldable pub set_database_context : DatabaseActor → Database → Database
set_database_context actor s = record s { context = actor }

unfoldable pub parse_booking_status : Text → Try BookingStatus
parse_booking_status value =
    if text_eq value (codes "ACTIVE")
    then ok active
    else if text_eq value (codes "BANNED")
    then ok banned
    else if text_eq value (codes "RESTRICTED")
    then ok restricted
    else if text_eq value (codes "SHADOW_BANNED")
    then ok shadow_banned
    else throw invalid_stored_value

unfoldable pub parse_reservation_status : Text → Try ReservationStatus
parse_reservation_status value =
    if text_eq value (codes "CANCELLED")
    then ok cancelled
    else if text_eq value (codes "CONFIRMED")
    then ok ReservationStatus.confirmed
    else if text_eq value (codes "NO_SHOW")
    then ok no_show
    else throw invalid_stored_value

-- `parseStoredStudyPeriod`
unfoldable pub parse_stored_study_period : Text → Try StudyPeriod
parse_stored_study_period value = elim (parse_study_period value) [
  | none ↦ throw invalid_stored_value
  | some p ↦ ok p
]

unfoldable pub to_reservation : ReservationRow → Try Reservation
to_reservation row = do
  status ← parse_reservation_status row.status
  study_period ← parse_stored_study_period row.study_period
  ok (record {
    date = row.date;
    id = row.id;
    reason = row.reason;
    status = status;
    study_period = study_period;
    user_id = row.user_id;
  })

-- `updateMany` of reservations: a new status for the rows that a test holds of.
unfoldable pub update_status :
    (ReservationRow → Bool) → Text → List ReservationRow → List ReservationRow
update_status p status [] = []
update_status p status (row ∷ rows) =
    (if p row then record row { status = status } else row) ∷ update_status p status rows

abbrev pub has_id : Text → ReservationRow → Bool
has_id id row = text_eq row.id id

abbrev pub is_confirmed_row : ReservationRow → Bool
is_confirmed_row row = text_eq row.status (codes "CONFIRMED")
