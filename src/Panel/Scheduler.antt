-- ===== src/Panel/Scheduler.antt =====
-- The scheduler of crates/panel/src/scheduler.rs: what a tick does with the schedules that are due.
-- Its errors are the texts of the `PanelError`s here. A wait adds its seconds to the state, and
-- the task that writes to the activity log is run where it is spawned.
pub mod Quietly
pub mod Untouched
pub mod Finished
mod Examples
use oxydactylus.Base.{
  ◌-◌, ℕ, String, Bool, true, false, not, ◌&&◌, ◌||◌, ◌==◌, leb, str_eq, Option, none, some, List,
  [], ◌∷◌, ◌++◌, select, update, if◌then◌else◌,
}
use oxydactylus.Base.Int.{ℤ, pos, negsuc, leb_ℤ}
use oxydactylus.Base.Text.{concat}
use oxydactylus.Panel.Error.{PanelError, internal, text, of_text, Result, ok, err}
use oxydactylus.Panel.Store.{
  Uuid, Time, Server, NodeRow, ScheduleInfo, ScheduleTask, ActivityEntry, Db, start, stop,
  send_command, sleep, Panel, pure, raise, or_raise, attempt, query, fetch_one, execute, send,
  open_client, ◌>>=◌, ◌>>◌,
}
use oxydactylus.Panel.Access.{fetch_server, node_by_id}

-- `is_processing = FALSE AND next_run_at <= $1` and so on. (Times are compared, not their texts.)
abbrev pub is_due : Time → Option Time → Bool
is_due now none = false
is_due now (some t) = leb t now

abbrev pub is_pending : Time → ScheduleInfo → Bool
is_pending now s = s.is_active && not s.is_processing && is_due now s.next_run_at

unfoldable pub pending_at : Time → Db → List ScheduleInfo
pending_at now d = select (is_pending now) d.schedules

unfoldable pub set_processing : Bool → Uuid → Db → Db
set_processing flag id d = record d {
  schedules = update (λ s. s.id == id) (λ s. record s { is_processing = flag }) d.schedules;
}

-- UPDATE schedules SET is_processing = FALSE, last_run_at = $1, next_run_at = $2 WHERE id = $3
unfoldable pub finish : Uuid → Time → Option Time → Db → Db
finish id last next d = record d {
  schedules =
      update (λ s. s.id == id)
        (λ s. record s { is_processing = false; last_run_at = some last; next_run_at = next })
        d.schedules;
}

-- ORDER BY sequence_id
abbrev pub insert_by_sequence : ScheduleTask → List ScheduleTask → List ScheduleTask
insert_by_sequence t [] = t ∷ []
insert_by_sequence t (u ∷ us) =
    let rest = insert_by_sequence t us in
    if leb_ℤ t.sequence_id u.sequence_id then t ∷ u ∷ us else u ∷ rest

abbrev pub by_sequence : List ScheduleTask → List ScheduleTask
by_sequence [] = []
by_sequence (t ∷ ts) = insert_by_sequence t (by_sequence ts)

unfoldable pub tasks_of : Uuid → Db → List ScheduleTask
tasks_of schedule_id d = by_sequence (select (λ t. t.schedule_id == schedule_id) d.schedule_tasks)

abbrev pub error_of : Result (Unit {0}) → Option PanelError
error_of (ok _) = none
error_of (err e) = some e

abbrev pub failed_with : Result (Unit {0}) → Bool
failed_with (ok _) = false
failed_with (err _) = true

-- The entry of a task in the activity log.
unfoldable pub add_entry : Uuid → Uuid → ScheduleTask → Result (Unit {0}) → Db → Db
add_entry schedule_id server_id t r d = record d {
  activity_logs =
      d.activity_logs
      ++ (record {
        server_id = some server_id;
        user_id = none;
        event = "schedule.run";
        schedule_id = schedule_id;
        action = t.action;
        error = error_of r;
      }
          ∷ []);
}

-- `time_offset as u64`
abbrev pub seconds_of : ℤ → ℕ
seconds_of (pos n) = n
seconds_of (negsuc n) = 18446744073709551615 - n

unfoldable pub run_power : Uuid → NodeRow → String → Panel (Unit {0})
run_power id node action w =
    if str_eq action "start"
    then (do client ← open_client node.grpc_addr node.token; send client (start id)) w
    else if str_eq action "stop"
    then (do client ← open_client node.grpc_addr node.token; send client (stop id 10)) w
    else if str_eq action "restart"
    then (do
      client ← open_client node.grpc_addr node.token
      send client (stop id 10)
      client ← open_client node.grpc_addr node.token
      send client (start id))
        w
    else raise (internal (text "unknown power action")) w

-- `from_json` is `serde_json::from_str` for a text; `upcoming` is what the cron library says of an
-- expression: `none` if it is none, or else the next time, if there is one. `last_run` is the
-- time at which the run of a schedule ends.
module _ (from_json : String → Option String) (upcoming : String → Option (Option Time))
    (last_run : Uuid → Time) where
  unfoldable pub run_command : Uuid → NodeRow → String → Panel (Unit {0})
  run_command id node command = do
    client ← open_client node.grpc_addr node.token
    send client (send_command id command)

  unfoldable pub run_action : Uuid → String → String → NodeRow → Panel (Unit {0})
  run_action id action payload node w =
      if str_eq action "power"
      then (or_raise (internal (text "not a text")) (from_json payload) >>= run_power id node) w
      else if str_eq action "command"
      then (or_raise (internal (text "not a text")) (from_json payload) >>= run_command id node) w
      else if str_eq action "backup"
      then raise (internal (text "backup action not yet implemented")) w
      else raise (internal (of_text "unknown action: {}" action)) w

  unfoldable pub run_task : Uuid → String → String → Panel (Unit {0})
  run_task server_id action payload = do
    server ← fetch_server server_id
    node ← fetch_one (node_by_id server.node_id)
    run_action server_id action payload node

  -- The loop over the tasks; `failed` says whether one has failed.
  unfoldable pub run_tasks : Uuid → Uuid → Bool → List ScheduleTask → Panel (Unit {0})
  run_tasks schedule_id server_id failed [] w = pure tt w
  run_tasks schedule_id server_id failed (t ∷ ts) w =
      if failed && not t.continue_on_failure
      then pure tt w
      else (do
        sleep (seconds_of t.time_offset)
        r ← attempt (run_task server_id t.action t.payload)
        attempt (execute (add_entry schedule_id server_id t r))
        run_tasks schedule_id server_id (failed || failed_with r) ts)
          w

  unfoldable pub cron_expr : ScheduleInfo → String
  cron_expr s = concat (
      "0 " ∷ s.cron_minute ∷ " " ∷ s.cron_hour ∷ " " ∷ s.cron_day_of_month ∷ " " ∷ s.cron_month
      ∷ " " ∷ s.cron_day_of_week ∷ [])

  abbrev pub flat : Option (Option Time) → Option Time
  flat none = none
  flat (some o) = o

  unfoldable pub next_run : ScheduleInfo → Option Time
  next_run s = flat (upcoming (cron_expr s))

  unfoldable pub clear_processing : Uuid → Panel (Unit {0})
  clear_processing id = attempt (execute (set_processing false id)) >> pure tt

  -- `run_schedule` below the query of the server, whose parsed identifier is given.
  unfoldable pub run_for : Uuid → ScheduleInfo → Result Server → Panel (Unit {0})
  run_for server_uuid s (err _) w = clear_processing s.id w
  run_for server_uuid s (ok server) w =
      if s.only_when_online && not (str_eq server.status "running")
      then clear_processing s.id w
      else (do
        tasks ← query (tasks_of s.id)
        run_tasks s.id server_uuid false tasks
        execute (finish s.id (last_run s.id) (next_run s)))
          w

  -- `parse_uuid` is `Uuid::parse_str` on the text that a row keeps for a server.
  module _ (parse_uuid : Uuid → Option Uuid) where
    unfoldable pub run_schedule : ScheduleInfo → Panel (Unit {0})
    run_schedule s = do
      execute (set_processing true s.id)
      server_uuid ← or_raise (internal (text "not a UUID")) (parse_uuid s.server_id)
      found ← attempt (fetch_server server_uuid)
      run_for server_uuid s found

    unfoldable pub run_all : List ScheduleInfo → Panel (Unit {0})
    run_all [] = pure tt
    run_all (s ∷ ss) = attempt (run_schedule s) >> run_all ss

    unfoldable pub tick : Time → Panel (Unit {0})
    tick now = query (pending_at now) >>= run_all
