-- ===== src/Sanctions/Transactions.antt =====
-- `applyAdministratorUserSanction` and `removeAdministratorUserSanction`: the lookup, then the
-- transaction. Other writers may come between, so the two read different tables.
use info_room_reservation_si.Prelude.{
  ℕ, Bool, not, ◌&&◌, Option, none, some, List, [], ◌∷◌, ◌++◌, Text, codes, text_eq, find,
  if◌then◌else◌,
}
use info_room_reservation_si.Reservations.{Try, ok}
use info_room_reservation_si.Database.{
  ReservationRow, UserRow, json_text, json_number, AdminActionRow, AuditLogRow, SanctionRow,
  Database, ◌>>=◌,
}
use info_room_reservation_si.Sanctions.{
  banned, restricted, shadow_banned, sanction_status_text, profile_text, release_type_text,
  SanctionInput, ReleaseInput, SanctionResult, not_found, weaker_status, wrong_type, ok_sanction,
  sanction_end, assert_restrictable_user, same_sanction, matches_release_type, restriction_snapshot,
  has_user_id, update_user_row, find_student_id, sanctioned, released, cancel_future_reservations,
  revoke_active, sanction_kind, number_or_null,
}

-- Only a ban cancels reservations.
abbrev pub cancelled_by : SanctionInput → Text → Database → Try (ℕ × List ReservationRow)
cancelled_by input target_id s = elim input.status [
  | banned ↦ cancel_future_reservations target_id input.now s
  | restricted ↦ ok (0, s.reservations)
  | shadow_banned ↦ ok (0, s.reservations)
]

module _ (new_action_id : Database → Text) (input : SanctionInput) where
  abbrev pub apply_action : Text → UserRow → UserRow → ℕ → Text → AdminActionRow
  apply_action target_id target updated cancelled action_id = record {
    action = codes "USER_RESTRICTION_APPLY";
    actor_id = input.actor_id;
    after = restriction_snapshot updated cancelled;
    before = restriction_snapshot target 0;
    id = action_id;
    ip_hash = input.ip_hash;
    reason = input.reason;
    reservation_id = none;
    target_user_id = target_id;
  }

  abbrev pub apply_sanction : Text → Text → SanctionRow
  apply_sanction target_id action_id = record {
    actor_id = input.actor_id;
    ends_at = sanction_end input;
    kind = sanction_kind input.status;
    reason = input.reason;
    revoked_at = none;
    revoked_by_id = none;
    revoked_reason = none;
    source_action_id = action_id;
    status = codes "ACTIVE";
    user_id = target_id;
  }

  abbrev pub apply_log : Text → ℕ → AuditLogRow
  apply_log target_id cancelled = record {
    action = codes "USER_RESTRICTION_APPLY";
    actor_id = input.actor_id;
    detail =
        (codes "cancelledFutureReservationCount", json_number cancelled)
        ∷ (codes "days", number_or_null input.days)
        ∷ (codes "profile", json_text (profile_text input.profile))
        ∷ (codes "reason", json_text input.reason)
        ∷ (codes "status", json_text (sanction_status_text input.status))
        ∷ [];
    user_id = target_id;
  }

  -- The writes, with the reservations that are left.
  abbrev pub sanction_user :
      Text → UserRow → ℕ × List ReservationRow → Database → SanctionResult × Database
  sanction_user target_id target (cancelled, reservations) s =
      let updated = sanctioned input target in
      let action_id = new_action_id s in
      (
        ok_sanction target.booking_status cancelled updated,
        record s {
          admin_actions =
              s.admin_actions ++ apply_action target_id target updated cancelled action_id ∷ [];
          audit_logs = s.audit_logs ++ apply_log target_id cancelled ∷ [];
          reservations = reservations;
          sanctions =
              revoke_active target_id input.now input.actor_id (codes "새 관리자 제재로 대체") s.sanctions
              ++ apply_sanction target_id action_id ∷ [];
          users = update_user_row target_id (sanctioned input) s.users;
        },
      )

  abbrev pub is_weaker : UserRow → Bool
  is_weaker target =
      text_eq target.booking_status (codes "BANNED")
      && not (text_eq (sanction_status_text input.status) (codes "BANNED"))

  unfoldable pub apply_allowed : Text → UserRow → Database → Try (SanctionResult × Database)
  apply_allowed target_id target s =
      if is_weaker target
      then ok (weaker_status, s)
      else if same_sanction target input (sanction_end input)
      then ok (ok_sanction target.booking_status 0 target, s)
      else (do
        cancelled ← cancelled_by input target_id s
        ok (sanction_user target_id target cancelled s))

  abbrev pub apply_guarded :
      Option SanctionResult → Text → UserRow → Database → Try (SanctionResult × Database)
  apply_guarded none target_id target s = apply_allowed target_id target s
  apply_guarded (some forbidden) target_id target s = ok (forbidden, s)

  abbrev pub apply_found : Text → Option UserRow → Database → Try (SanctionResult × Database)
  apply_found target_id none s = ok (not_found, s)
  apply_found target_id (some target) s =
      apply_guarded (assert_restrictable_user input.actor_id target) target_id target s

  unfoldable pub apply_in_transaction : Text → Database → Try (SanctionResult × Database)
  apply_in_transaction target_id s = apply_found target_id (find (has_user_id target_id) s.users) s

  abbrev pub apply_to : Option Text → Database → Try (SanctionResult × Database)
  apply_to none s = ok (not_found, s)
  apply_to (some target_id) s = apply_in_transaction target_id s

  -- The tables at the lookup, and those at the transaction.
  unfoldable pub apply_administrator_user_sanction :
      Database → Database → Try (SanctionResult × Database)
  apply_administrator_user_sanction seen s = apply_to (find_student_id input.student_number seen) s

module _ (new_action_id : Database → Text) (clock : ℕ) (input : ReleaseInput) where
  abbrev pub remove_action : Text → UserRow → Text → AdminActionRow
  remove_action target_id target action_id = record {
    action = codes "USER_RESTRICTION_REMOVE";
    actor_id = input.actor_id;
    after = restriction_snapshot (released target) 0;
    before = restriction_snapshot target 0;
    id = action_id;
    ip_hash = input.ip_hash;
    reason = input.reason;
    reservation_id = none;
    target_user_id = target_id;
  }

  abbrev pub remove_log : Text → Text → AuditLogRow
  remove_log target_id action_id = record {
    action = codes "USER_RESTRICTION_REMOVE";
    actor_id = input.actor_id;
    detail =
        (codes "actionId", json_text action_id)
        ∷ (codes "reason", json_text input.reason)
        ∷ (codes "releaseType", json_text (release_type_text input.release_type))
        ∷ [];
    user_id = target_id;
  }

  abbrev pub release_user : Text → UserRow → Database → SanctionResult × Database
  release_user target_id target s =
      let action_id = new_action_id s in
      (
        ok_sanction target.booking_status 0 (released target),
        record s {
          admin_actions = s.admin_actions ++ remove_action target_id target action_id ∷ [];
          audit_logs = s.audit_logs ++ remove_log target_id action_id ∷ [];
          sanctions = revoke_active target_id clock input.actor_id input.reason s.sanctions;
          users = update_user_row target_id released s.users;
        },
      )

  abbrev pub remove_guarded :
      Option SanctionResult → Text → UserRow → Database → SanctionResult × Database
  remove_guarded none target_id target s =
      if not (matches_release_type target.booking_status input.release_type)
      then (wrong_type, s)
      else release_user target_id target s
  remove_guarded (some forbidden) target_id target s = (forbidden, s)

  abbrev pub remove_found : Text → Option UserRow → Database → SanctionResult × Database
  remove_found target_id none s = (not_found, s)
  remove_found target_id (some target) s =
      remove_guarded (assert_restrictable_user input.actor_id target) target_id target s

  unfoldable pub remove_in_transaction : Text → Database → SanctionResult × Database
  remove_in_transaction target_id s =
      remove_found target_id (find (has_user_id target_id) s.users) s

  abbrev pub remove_from : Option Text → Database → SanctionResult × Database
  remove_from none s = (not_found, s)
  remove_from (some target_id) s = remove_in_transaction target_id s

  unfoldable pub remove_administrator_user_sanction :
      Database → Database → SanctionResult × Database
  remove_administrator_user_sanction seen s =
      remove_from (find_student_id input.student_number seen) s
