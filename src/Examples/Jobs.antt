-- ===== src/Examples/Jobs.antt =====
-- Operational jobs.
use info_room_reservation_si.Prelude.{none, some, [], ◌∷◌, codes, true}
use info_room_reservation_si.OperationalJobs.{created, try_start, finish}
use info_room_reservation_si.OperationalJobs.Claims.{
  System, start, report_end, here, more, granted, ended, fresh, IsConsistent, Reach-IsConsistent,
}
use info_room_reservation_si.OperationalJobs.Runner.{OperationResult, unexpected_input}

Reach-IsConsistent_example : IsConsistent (
    ended
      (finish (unexpected_input 5 6) (granted (try_start 5 10 none) 5 fresh).row)
      (unexpected_input 5 6)
      (granted (try_start 5 10 none) 5 fresh))
Reach-IsConsistent_example =
    Reach-IsConsistent (more (more here (start 5 10)) (report_end (unexpected_input 5 6)))

abbrev claimed : System
claimed = record { row = some (created 5); claims = 5 ∷ []; ends = [] }

abbrev good : OperationResult
good = record {
  backlog_count = 0;
  failure_code = none;
  is_success = true;
  oldest_backlog_at = none;
  result = codes "{}";
  value = 3;
}
