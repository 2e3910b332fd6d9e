-- ===== src/StudentProfile/Payload.antt =====
-- `buildStudentProfilePayload` and `toStudentFacingProfileUser`.
use info_room_reservation_si.Prelude.{
  ℕ, Bool, true, false, ◌&&◌, Option, none, some, List, [], Text, text_le, filter, map, take, ltb,
  if◌then◌else◌, sort_by,
}
use info_room_reservation_si.StudyPeriods.{StudyPeriod, study_period_rank}
use info_room_reservation_si.Reservations.{active, is_shadow_banned, is_confirmed}
use info_room_reservation_si.ClosedPeriods.{Ordering, less, equal, greater}
use info_room_reservation_si.StudentProfile.{
  StudentProfileUserRow, StudentProfileReservationRow, StudentProfileSanctionRow,
  StudentProfileUserPayload, StudentProfileReservationPayload, StudentProfileSanctionPayload,
  StudentProfilePayload, empty_sanction_summary, should_expose_student_profile_sanctions,
  get_effective_booking_status, get_student_profile_status_message,
  summarize_student_profile_reservations, summarize_student_profile_sanctions,
}

abbrev pub map_option {ℓ κ} : {A : Type ℓ} {B : Type κ} → (A → B) → Option A → Option B
map_option f none = none
map_option f (some a) = some (f a)

module _ (to_iso_string : ℕ → Text) where
  unfoldable pub to_student_facing_profile_user : StudentProfileUserRow → StudentProfileUserPayload
  to_student_facing_profile_user user =
      if is_shadow_banned user.booking_status
      then record {
        booking_status = active;
        generation = user.generation;
        name = user.name;
        restriction_reason = none;
        restricted_until = none;
        role = user.role;
        student_number = user.student_number;
      }
      else record {
        booking_status = user.booking_status;
        generation = user.generation;
        name = user.name;
        restriction_reason = user.restriction_reason;
        restricted_until = map_option to_iso_string user.restricted_until;
        role = user.role;
        student_number = user.student_number;
      }

  unfoldable pub serialize_reservation :
      StudentProfileReservationRow → StudentProfileReservationPayload
  serialize_reservation r = record {
    created_at = to_iso_string r.created_at;
    date = r.date;
    status = r.status;
    study_period = r.study_period;
    updated_at = to_iso_string r.updated_at;
  }

  unfoldable pub serialize_sanction : StudentProfileSanctionRow → StudentProfileSanctionPayload
  serialize_sanction x = record {
    created_at = to_iso_string x.created_at;
    ends_at = map_option to_iso_string x.ends_at;
    kind = x.kind;
    reason = x.reason;
    revoked_at = map_option to_iso_string x.revoked_at;
    starts_at = to_iso_string x.starts_at;
    status = x.status;
  }

-- Whether the period and then the time of creation put the first after the second.
abbrev pub later_on_date : StudyPeriod → StudyPeriod → Bool → Bool
later_on_date p q created_after =
    if ltb (study_period_rank q) (study_period_rank p)
    then true
    else if ltb (study_period_rank p) (study_period_rank q)
    then false
    else created_after

unfoldable pub recent_sanction_after : StudentProfileSanctionRow → StudentProfileSanctionRow → Bool
recent_sanction_after left right = ltb left.created_at right.created_at

module _ (locale_compare : Text → Text → Ordering) where
  unfoldable pub current_after : StudentProfileReservationRow → StudentProfileReservationRow → Bool
  current_after left right = elim (locale_compare left.date right.date) [
    | less ↦ false
    | greater ↦ true
    | equal ↦
        later_on_date left.study_period right.study_period (ltb right.created_at left.created_at)
  ]

  unfoldable pub recent_after : StudentProfileReservationRow → StudentProfileReservationRow → Bool
  recent_after left right = elim (locale_compare right.date left.date) [
    | less ↦ false
    | greater ↦ true
    | equal ↦
        later_on_date left.study_period right.study_period (ltb left.created_at right.created_at)
  ]

  module _ (to_iso_string : ℕ → Text) (kst_today : Text) (now : ℕ) where
    unfoldable pub build_student_profile_payload :
        StudentProfileUserRow
        → List StudentProfileReservationRow
        → List StudentProfileSanctionRow
        → StudentProfilePayload
    build_student_profile_payload user reservations sanctions =
        let exposed = should_expose_student_profile_sanctions user in
        let status = get_effective_booking_status user now in
        record {
          current_reservations = map (serialize_reservation to_iso_string) (
              sort_by current_after
                (filter (λ r. is_confirmed r.status && text_le kst_today r.date) reservations));
          effective_status = status;
          recent_reservations =
              map (serialize_reservation to_iso_string)
                (take 10 (sort_by recent_after reservations));
          recent_sanctions =
              map (serialize_sanction to_iso_string)
                (if exposed then take 5 (sort_by recent_sanction_after sanctions) else []);
          reservation_summary = summarize_student_profile_reservations reservations;
          sanction_summary =
              if exposed
              then summarize_student_profile_sanctions sanctions
              else empty_sanction_summary;
          status_message = get_student_profile_status_message status;
          user = to_student_facing_profile_user to_iso_string user;
        }
