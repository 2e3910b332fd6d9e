-- ===== src/Sanctions.antt =====
-- Administrators restrict students and release them: src/lib/admin-user-sanction-service.ts, with
-- `assertRestrictableUser` of src/lib/admin-users.ts. The key of a new row and the clock are parameters.
pub mod Transactions
pub mod Applied
pub mod Standing
pub mod Outcomes
pub mod Release
use info_room_reservation_si.Prelude.{
  ℕ, ◌+◌, ◌*◌, Bool, true, false, not, ◌&&◌, Option, none, some, List, [], ◌∷◌, ◌++◌, Text, codes,
  text_eq, text_le, find, filter, if◌then◌else◌, ◌==◌,
}
use info_room_reservation_si.Calendar.{to_kst_date}
use info_room_reservation_si.PeriodSettings.Effective.{is_read}
use info_room_reservation_si.Reservations.{Try, ok}
use info_room_reservation_si.Database.{
  ReservationRow, UserRow, JsonValue, json_text, json_number, json_null, Json, AdminActionRow,
  AuditLogRow, SanctionRow, Database, ◌>>=◌, is_confirmed_row,
}
use info_room_reservation_si.AdminReservations.{select_cancellable_confirmed_reservation_ids}
use info_room_reservation_si.NoShow.{is_active_of, instant_or_null, text_or_null, cancel_all}

pub data SanctionStatus : Type 0 where
  banned restricted shadow_banned : SanctionStatus

abbrev pub sanction_status_text : SanctionStatus → Text
sanction_status_text banned = codes "BANNED"
sanction_status_text restricted = codes "RESTRICTED"
sanction_status_text shadow_banned = codes "SHADOW_BANNED"

pub data ShadowBanProfile : Type 0 where
  low normal high : ShadowBanProfile

abbrev pub profile_text : ShadowBanProfile → Text
profile_text low = codes "LOW"
profile_text normal = codes "NORMAL"
profile_text high = codes "HIGH"

pub data ReleaseType : Type 0 where
  all ban blacklist restriction : ReleaseType

abbrev pub release_type_text : ReleaseType → Text
release_type_text all = codes "ALL"
release_type_text ban = codes "BAN"
release_type_text blacklist = codes "BLACKLIST"
release_type_text restriction = codes "RESTRICTION"

pub record SanctionInput : Type 0 where
  pub actor_id : Text
  pub days : Option ℕ
  pub ip_hash : Text
  pub now : ℕ
  pub profile : ShadowBanProfile
  pub reason : Text
  pub status : SanctionStatus
  pub student_number : Text

pub record ReleaseInput : Type 0 where
  pub actor_id : Text
  pub ip_hash : Text
  pub reason : Text
  pub release_type : ReleaseType
  pub student_number : Text

pub data SanctionResult : Type 0 where
  admin_target self_restriction not_found weaker_status wrong_type : SanctionResult
  -- the status before, the number of reservations that were cancelled, and the student
  ok_sanction : Text → ℕ → UserRow → SanctionResult

-- The end of a restriction; other sanctions have none.
abbrev pub end_of : SanctionStatus → Option ℕ → ℕ → Option ℕ
end_of restricted (some days) now = some (now + days * 24 * 60 * 60000)
end_of _ _ now = none

abbrev pub sanction_end : SanctionInput → Option ℕ
sanction_end input = end_of input.status input.days input.now

-- The reason why a user may not be restricted, `none` for `ok`.
unfoldable pub assert_restrictable_user : Text → UserRow → Option SanctionResult
assert_restrictable_user actor_id target =
    if text_eq actor_id target.id
    then some self_restriction
    else if text_eq target.role (codes "ADMIN")
    then some admin_target
    else none

-- `===` on nullable columns
abbrev pub optional_text_eq : Option Text → Text → Bool
optional_text_eq none b = false
optional_text_eq (some a) b = text_eq a b

abbrev pub instant_eq : Option ℕ → Option ℕ → Bool
instant_eq none none = true
instant_eq none (some b) = false
instant_eq (some a) none = false
instant_eq (some a) (some b) = a == b

unfoldable pub same_sanction : UserRow → SanctionInput → Option ℕ → Bool
same_sanction target input until =
    text_eq target.booking_status (sanction_status_text input.status)
    && (optional_text_eq target.restriction_reason input.reason
        && instant_eq target.restricted_until until)

unfoldable pub matches_release_type : Text → ReleaseType → Bool
matches_release_type status all = true
matches_release_type status ban = text_eq status (codes "BANNED")
matches_release_type status blacklist = text_eq status (codes "SHADOW_BANNED")
matches_release_type status restriction = text_eq status (codes "RESTRICTED")

abbrev pub restriction_snapshot : UserRow → ℕ → Json
restriction_snapshot user cancelled =
    (codes "bookingStatus", json_text user.booking_status)
    ∷ (codes "cancelledFutureReservationCount", json_number cancelled)
    ∷ (codes "restrictedUntil", instant_or_null user.restricted_until)
    ∷ (codes "restrictionReason", text_or_null user.restriction_reason)
    ∷ (codes "shadowBanProfile", json_text user.shadow_ban_profile)
    ∷ []

abbrev pub has_user_id : Text → UserRow → Bool
has_user_id id user = text_eq user.id id

-- `user.update` by key
unfoldable pub update_user_row : Text → (UserRow → UserRow) → List UserRow → List UserRow
update_user_row id f [] = []
update_user_row id f (user ∷ users) =
    (if has_user_id id user then f user else user) ∷ update_user_row id f users

unfoldable pub find_student_id : Text → Database → Option Text
find_student_id student_number s =
    elim (find (λ user. text_eq user.student_number student_number) s.users) [
      | none ↦ none
      | some user ↦ some user.id
    ]

abbrev pub profile_of : SanctionStatus → ShadowBanProfile → Text
profile_of shadow_banned profile = profile_text profile
profile_of _ profile = codes "NORMAL"

abbrev pub sanctioned : SanctionInput → UserRow → UserRow
sanctioned input user = record user {
  booking_status = sanction_status_text input.status;
  restricted_until = sanction_end input;
  restriction_reason = some input.reason;
  shadow_ban_profile = profile_of input.status input.profile;
}

abbrev pub released : UserRow → UserRow
released user = record user {
  booking_status = codes "ACTIVE";
  restricted_until = none;
  restriction_reason = none;
  shadow_ban_profile = codes "NORMAL";
}

abbrev pub is_future_of : Text → Text → ReservationRow → Bool
is_future_of today user_id row =
    text_le today row.date && (is_confirmed_row row && text_eq row.user_id user_id)

-- How many reservations are cancelled, and the reservations after that.
unfoldable pub cancel_future_reservations : Text → ℕ → Database → Try (ℕ × List ReservationRow)
cancel_future_reservations user_id now s = do
  ids ←
      select_cancellable_confirmed_reservation_ids now
        (filter (is_read (to_kst_date now)) s.period_settings)
        (filter (is_future_of (to_kst_date now) user_id) s.reservations)
  ok (cancel_all ids s.reservations)

abbrev pub revoked_row : ℕ → Text → Text → SanctionRow → SanctionRow
revoked_row at actor_id reason sanction = record sanction {
  revoked_at = some at;
  revoked_by_id = some actor_id;
  revoked_reason = some reason;
  status = codes "REVOKED";
}

-- The active sanctions of a user are revoked.
unfoldable pub revoke_active : Text → ℕ → Text → Text → List SanctionRow → List SanctionRow
revoke_active user_id at actor_id reason [] = []
revoke_active user_id at actor_id reason (sanction ∷ sanctions) =
    (if is_active_of user_id sanction then revoked_row at actor_id reason sanction else sanction)
    ∷ revoke_active user_id at actor_id reason sanctions

abbrev pub sanction_kind : SanctionStatus → Text
sanction_kind restricted = codes "ADMIN_RESTRICTION"
sanction_kind _ = codes "ADMIN_BAN"

abbrev pub number_or_null : Option ℕ → JsonValue
number_or_null none = json_null
number_or_null (some n) = json_number n
