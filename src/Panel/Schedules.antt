-- ===== src/Panel/Schedules.antt =====
-- The schedules of a server and their tasks: crates/panel/src/schedules.rs.
mod Tasks
mod Examples
use oxydactylus.Base.{
  ℕ, zero, suc, ◌+◌, String, Bool, true, false, not, ◌&&◌, ◌||◌, ◌==◌, Option, none, some, List, [],
  ◌∷◌, ◌++◌, any, select, delete, count, if◌then◌else◌,
}
use oxydactylus.Base.Int.{ℤ, pos, negsuc, leb_ℤ}
use oxydactylus.Base.Text.{concat}
use oxydactylus.Panel.Error.{validation, not_found, forbidden, text, of_id, Result, ok, err}
use oxydactylus.Panel.Store.{
  Uuid, Time, Server, ScheduleInfo, ScheduleTask, Db, Panel, pure, raise, lift, query, execute,
  statement, ◌>>=◌, ◌>>◌,
}
use oxydactylus.Panel.Access.{AuthUser, fetch_server}
use oxydactylus.Panel.Scheduler.{by_sequence}

pub record CreateScheduleRequest : Type 0 where
  pub name : String
  pub cron_minute : Option String
  pub cron_hour : Option String
  pub cron_day_of_month : Option String
  pub cron_month : Option String
  pub cron_day_of_week : Option String
  pub only_when_online : Option Bool

pub record CreateScheduleTaskRequest : Type 0 where
  pub action : String
  pub payload : String
  pub time_offset : Option ℤ
  pub continue_on_failure : Option Bool

module _ {A : Type 0} where
  abbrev pub unwrap_or : A → Option A → A
  unwrap_or a none = a
  unwrap_or a (some b) = b

-- `!caller.is_admin && caller.id != server.user_id`
unfoldable pub check_owner : AuthUser → Server → Panel (Unit {0})
check_owner caller server w =
    if not caller.is_admin && not (caller.id == server.user_id)
    then raise forbidden w
    else pure tt w

-- SELECT … FROM schedules WHERE server_id = $1 (its order by time is not modelled)
unfoldable pub list_schedules : AuthUser → Uuid → Panel (List ScheduleInfo)
list_schedules caller server_id = do
  server ← fetch_server server_id
  check_owner caller server
  query (λ d. select (λ s. s.server_id == server_id) d.schedules)

-- `upcoming` is what the cron library says of an expression: `none` if it is none, or else the next
-- time, if there is one.
module _ (upcoming : String → Option (Option Time)) where
  abbrev pub time_of : Option (Option Time) → Result Time
  time_of none = err (validation (text "invalid cron expression"))
  time_of (some none) = err (validation (text "could not calculate next run"))
  time_of (some (some t)) = ok t

  unfoldable pub calculate_next_run_at : String → String → String → String → String → Result Time
  calculate_next_run_at minute hour day_of_month month day_of_week = time_of (
      upcoming (
        concat
          ("0 " ∷ minute ∷ " " ∷ hour ∷ " " ∷ day_of_month ∷ " " ∷ month ∷ " " ∷ day_of_week ∷ [])))

  -- The row of `create_schedule`.
  abbrev pub new_schedule : Uuid → Time → Uuid → CreateScheduleRequest → Time → ScheduleInfo
  new_schedule id now server_id body next_run_at = record {
    id = id;
    server_id = server_id;
    name = body.name;
    cron_minute = unwrap_or "*" body.cron_minute;
    cron_hour = unwrap_or "*" body.cron_hour;
    cron_day_of_month = unwrap_or "*" body.cron_day_of_month;
    cron_month = unwrap_or "*" body.cron_month;
    cron_day_of_week = unwrap_or "*" body.cron_day_of_week;
    is_active = true;
    is_processing = false;
    only_when_online = unwrap_or false body.only_when_online;
    last_run_at = none;
    next_run_at = some next_run_at;
    created_at = now;
  }

  unfoldable pub insert_schedule : ScheduleInfo → Db → ScheduleInfo × Db
  insert_schedule s d = (s, record d { schedules = d.schedules ++ (s ∷ []) })

  unfoldable pub create_schedule :
      Uuid → Time → AuthUser → Uuid → CreateScheduleRequest → Panel ScheduleInfo
  create_schedule id now caller server_id body = do
    server ← fetch_server server_id
    check_owner caller server
    next_run_at ← lift (
        calculate_next_run_at (unwrap_or "*" body.cron_minute) (unwrap_or "*" body.cron_hour)
          (unwrap_or "*" body.cron_day_of_month) (unwrap_or "*" body.cron_month)
          (unwrap_or "*" body.cron_day_of_week))
    statement (insert_schedule (new_schedule id now server_id body next_run_at))

-- `rows == 0`
unfoldable pub affected : Uuid → ℕ → Panel ℕ
affected id rows w = if rows == 0 then raise (not_found (of_id "{}" id)) w else pure 204 w

-- DELETE FROM schedules WHERE id = $1 AND server_id = $2; the tasks of a schedule go with it (ON
-- DELETE CASCADE).
unfoldable pub delete_schedule_rows : Uuid → Uuid → Db → ℕ × Db
delete_schedule_rows id server_id d =
    let here : ScheduleInfo → Bool = λ s. s.id == id && s.server_id == server_id in
    (
      count here d.schedules,
      record d {
        schedules = delete here d.schedules;
        schedule_tasks =
            delete (λ t. any (λ s. here s && s.id == t.schedule_id) d.schedules) d.schedule_tasks;
      },
    )

unfoldable pub delete_schedule : AuthUser → Uuid → Uuid → Panel ℕ
delete_schedule caller server_id schedule_id = do
  server ← fetch_server server_id
  check_owner caller server
  rows ← statement (delete_schedule_rows schedule_id server_id)
  affected schedule_id rows

-- The join of `list_schedule_tasks`; `schedules.id` is the key, so a task joins one schedule at most.
unfoldable pub list_schedule_tasks : AuthUser → Uuid → Uuid → Panel (List ScheduleTask)
list_schedule_tasks caller server_id schedule_id = do
  server ← fetch_server server_id
  check_owner caller server
  query λ d. by_sequence (
      select
        (λ t.
          t.schedule_id == schedule_id
          && any (λ s. s.id == t.schedule_id && s.server_id == server_id) d.schedules)
        d.schedule_tasks)

abbrev pub max_ℤ : ℤ → ℤ → ℤ
max_ℤ a b = if leb_ℤ a b then b else a

abbrev pub with_max : ℤ → Option ℤ → ℤ
with_max a none = a
with_max a (some b) = max_ℤ a b

abbrev pub max_of : List ScheduleTask → Option ℤ
max_of [] = none
max_of (t ∷ ts) = some (with_max t.sequence_id (max_of ts))

-- SELECT MAX(sequence_id) as max_seq FROM schedule_tasks WHERE schedule_id = $1
unfoldable pub max_sequence : Uuid → Db → Option ℤ
max_sequence schedule_id d = max_of (select (λ t. t.schedule_id == schedule_id) d.schedule_tasks)

-- `+ 1` on an `i32`, which wraps around.
unfoldable pub after_i32 : ℤ → ℤ
after_i32 (pos n) = if n == 2147483647 then negsuc 2147483647 else pos (suc n)
after_i32 (negsuc zero) = pos 0
after_i32 (negsuc (suc n)) = negsuc n

unfoldable pub insert_task : ScheduleTask → Db → ScheduleTask × Db
insert_task t d = (t, record d { schedule_tasks = d.schedule_tasks ++ (t ∷ []) })

abbrev pub new_task : Uuid → Time → Uuid → CreateScheduleTaskRequest → ℤ → ScheduleTask
new_task id now schedule_id body sequence_id = record {
  id = id;
  schedule_id = schedule_id;
  sequence_id = sequence_id;
  action = body.action;
  payload = body.payload;
  time_offset = unwrap_or (pos 0) body.time_offset;
  is_queued = false;
  continue_on_failure = unwrap_or false body.continue_on_failure;
  created_at = now;
}

unfoldable pub create_schedule_task :
    Uuid → Time → AuthUser → Uuid → Uuid → CreateScheduleTaskRequest → Panel ScheduleTask
create_schedule_task id now caller server_id schedule_id body = do
  server ← fetch_server server_id
  check_owner caller server
  max_seq ← query (max_sequence schedule_id)
  statement (insert_task (new_task id now schedule_id body (after_i32 (unwrap_or (pos 0) max_seq))))

-- DELETE FROM schedule_tasks WHERE id = $1 AND schedule_id = $2
unfoldable pub delete_task_rows : Uuid → Uuid → Db → ℕ × Db
delete_task_rows id schedule_id d =
    let here : ScheduleTask → Bool = λ t. t.id == id && t.schedule_id == schedule_id in
    (count here d.schedule_tasks, record d { schedule_tasks = delete here d.schedule_tasks })

unfoldable pub delete_schedule_task : AuthUser → Uuid → Uuid → Uuid → Panel ℕ
delete_schedule_task caller server_id schedule_id task_id = do
  server ← fetch_server server_id
  check_owner caller server
  rows ← statement (delete_task_rows task_id schedule_id)
  affected task_id rows
