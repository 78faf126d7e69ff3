-- ===== src/Panel/Schedules/Examples.antt =====
-- A task that is added to a schedule.
use oxydactylus.Base.{◌≡◌, refl, none, [], ◌∷◌, find, select}
use oxydactylus.Base.Int.{pos}
use oxydactylus.Panel.Error.{ok}
use oxydactylus.Panel.Store.{ScheduleTask, Db, calm, query, fetch_one, statement}
use oxydactylus.Panel.Sample.{sample_db, owner_user}
use oxydactylus.Panel.Access.{server_by_id, fetch_server}
use oxydactylus.Panel.Schedules.{
  CreateScheduleTaskRequest, new_task, check_owner, max_sequence, after_i32, insert_task,
  create_schedule_task,
}

abbrev request : CreateScheduleTaskRequest
request = record {
  action = "power";
  payload = "restart";
  time_offset = none;
  continue_on_failure = none;
}

abbrev first_task : ScheduleTask
first_task = new_task 80 0 5 request (pos 1)

abbrev planned_db : Db
planned_db = record sample_db { schedule_tasks = first_task ∷ [] }

create_test :
    (create_schedule_task 81 0 owner_user 10 5 request (calm planned_db)).0
    ≡ ok (new_task 81 0 5 request (pos 2))
unfolding find select server_by_id fetch_server check_owner max_sequence after_i32 insert_task
    create_schedule_task query fetch_one statement
create_test = refl
