-- ===== src/Examples/Tables.antt =====
-- A small database for the tests.
use info_room_reservation_si.Prelude.{◌*◌, true, none, List, [], ◌∷◌, Text, codes}
use info_room_reservation_si.StudyPeriods.{first}
use info_room_reservation_si.PeriodSettings.{PeriodSettingSnapshot}
use info_room_reservation_si.Reservations.{ReserveStudyPeriodInput}
use info_room_reservation_si.Database.{DatabaseActor, student, ReservationRow, UserRow, Database}

abbrev pub nobody : DatabaseActor
nobody = record { id = none; role = student }

abbrev pub row_of : Text → ReservationRow
row_of status = record {
  date = codes "1970-01-01";
  id = codes "r1";
  reason = none;
  status = status;
  study_period = codes "FIRST";
  user_id = codes "u1";
}

abbrev pub pupil : UserRow
pupil = record {
  booking_status = codes "ACTIVE";
  id = codes "u1";
  restricted_until = none;
  restriction_reason = none;
  role = codes "STUDENT";
  shadow_ban_profile = codes "NORMAL";
  student_number = codes "30101";
}

abbrev pub day_setting : PeriodSettingSnapshot
day_setting = record {
  capacity = 10;
  close_time = codes "16:20";
  date = codes "1970-01-01";
  enabled = true;
  open_time = codes "13:00";
  study_period = codes "FIRST";
}

abbrev pub database : List ReservationRow → Database
database reservations = record {
  admin_actions = [];
  audit_logs = [];
  context = nobody;
  messages = [];
  period_settings = day_setting ∷ [];
  reservations = reservations;
  sanctions = [];
  users = pupil ∷ [];
}

abbrev pub new_key : Database → Text
new_key s = codes "k1"

abbrev pub nonce : Text → Text
nonce id = id

abbrev pub request : ReserveStudyPeriodInput
request = record {
  date = codes "1970-01-01";
  now = 5 * 3600000;
  reason = codes "study";
  study_period = first;
  user_id = codes "u1";
}

abbrev pub booked_once : Database
booked_once = database (row_of (codes "CONFIRMED") ∷ [])
