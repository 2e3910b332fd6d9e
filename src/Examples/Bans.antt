-- ===== src/Examples/Bans.antt =====
-- Students who did not show up.
use info_room_reservation_si.Prelude.{◌*◌, ◌≡◌, refl, [], ◌∷◌, codes, text_eq, text_lt}
use info_room_reservation_si.Calendar.{to_kst_date, day_text, civil_text, civil_of_day}
use info_room_reservation_si.PeriodWindow.{get_period_window_state, to_minutes, time_text}
use info_room_reservation_si.PeriodSettings.{period_setting_read_dates}
use info_room_reservation_si.PeriodSettings.Effective.{is_read}
use info_room_reservation_si.Reservations.{ok, error, restricted, build_no_show_ban}
use info_room_reservation_si.Reservations.Service.{reserve_study_period}
use info_room_reservation_si.Database.{UserRow, Database, update_status}
use info_room_reservation_si.PrismaStore.{prisma_store}
use info_room_reservation_si.AdminReservations.{
  can_mark_reservation_no_show, select_cancellable_confirmed_reservation_ids,
}
use info_room_reservation_si.NoShow.{
  AdministratorNoShowInput, ok_no_show, find_effective_setting, restrict_user, cancel_all, ban,
  marked, transition, mark_setting, mark_user, mark_found,
  mark_administrator_reservation_no_show_in_transaction,
}
use info_room_reservation_si.NoShow.Marked.{
  IsMarked, mark_administrator_reservation_no_show_in_transaction-IsMarked,
}
use info_room_reservation_si.NoShow.Ban.{reserve_study_period-no_show}
use info_room_reservation_si.Examples.Tables.{
  nobody, row_of, pupil, database, new_key, nonce, request, booked_once,
}

-- 18:00 in Korea, after the window
abbrev no_show : AdministratorNoShowInput
no_show = record {
  actor_id = codes "admin";
  ip_hash = codes "h";
  now = 9 * 3600000;
  reason = codes "absent";
  reservation_id = codes "r1";
}

abbrev after_ban : Database
after_ban =
    (ban new_key 0 no_show (row_of (codes "CONFIRMED")) pupil
      (cancel_all [] (marked new_key 0 no_show (row_of (codes "CONFIRMED")) booked_once))
      booked_once).1

abbrev banned_pupil : UserRow
banned_pupil = restrict_user (build_no_show_ban (codes "absent")) pupil

no_show_run :
    mark_administrator_reservation_no_show_in_transaction new_key 0 no_show booked_once
    ≡ ok (ok_no_show 0 (row_of (codes "NO_SHOW")) banned_pupil, after_ban)
unfolding mark_administrator_reservation_no_show_in_transaction mark_found mark_user mark_setting
    transition can_mark_reservation_no_show find_effective_setting is_read period_setting_read_dates
    get_period_window_state to_minutes time_text to_kst_date day_text civil_text civil_of_day
    text_eq text_lt update_status select_cancellable_confirmed_reservation_ids
no_show_run = refl

mark_administrator_reservation_no_show_in_transaction-IsMarked_example :
    IsMarked new_key 0 no_show booked_once 0 (row_of (codes "NO_SHOW")) banned_pupil after_ban
mark_administrator_reservation_no_show_in_transaction-IsMarked_example =
    mark_administrator_reservation_no_show_in_transaction-IsMarked new_key 0 no_show booked_once 0
      (row_of (codes "NO_SHOW")) banned_pupil after_ban no_show_run

reserve_study_period-no_show_example :
    reserve_study_period (prisma_store nobody new_key nonce 0) request after_ban
    ≡ ok (error restricted, after_ban)
reserve_study_period-no_show_example =
    reserve_study_period-no_show new_key 0 no_show booked_once 0 (row_of (codes "NO_SHOW"))
      banned_pupil after_ban no_show_run nobody new_key nonce 0 request refl

abbrev cancelled_once : Database
cancelled_once = database (row_of (codes "CANCELLED") ∷ [])
