-- ===== src/Panel/Scheduler/Examples.antt =====
-- Runs of a schedule with two tasks.
use oxydactylus.Base.{
  inr, ◌≡◌, refl, sym, ◌∙◌, ap, String, true, false, Option, none, some, [], ◌∷◌, Memᴰ, arith,
}
use oxydactylus.Base.Int.{pos}
use oxydactylus.Panel.Store.{Uuid, Time, ScheduleInfo, ScheduleTask, Db, calm}
use oxydactylus.Panel.Sample.{sample_db}
use oxydactylus.Panel.Scheduler.{tick}
use oxydactylus.Panel.Scheduler.Untouched.{tick-kept}

abbrev schedule : Uuid → Uuid → Option Time → ScheduleInfo
schedule id server_id next = record {
  id = id;
  server_id = server_id;
  name = "nightly";
  cron_minute = "0";
  cron_hour = "4";
  cron_day_of_month = "*";
  cron_month = "*";
  cron_day_of_week = "*";
  is_active = true;
  is_processing = false;
  only_when_online = false;
  last_run_at = none;
  next_run_at = next;
  created_at = 0;
}

abbrev task : Uuid → Uuid → String → String → ScheduleTask
task id schedule_id action payload = record {
  id = id;
  schedule_id = schedule_id;
  sequence_id = pos id;
  action = action;
  payload = payload;
  time_offset = pos 30;
  is_queued = false;
  continue_on_failure = true;
  created_at = 0;
}

-- Schedule 1 is due at time 100, schedule 2 is not; the first task of schedule 1 fails.
abbrev scheduled_db : Db
scheduled_db = record sample_db {
  schedules = schedule 1 11 (some 90) ∷ schedule 2 11 (some 200) ∷ [];
  schedule_tasks = task 1 1 "backup" "" ∷ task 2 1 "power" "restart" ∷ [];
}

abbrev read_text : String → Option String
read_text s = some s

abbrev never : String → Option (Option Time)
never _ = none

abbrev parsed : Uuid → Option Uuid
parsed id = some id

alone : (p : ScheduleInfo) → Memᴰ p scheduled_db.schedules → 2 ≡ p.id → schedule 2 11 (some 200) ≡ p
alone p (Memᴰ.head e) same = let other : 2 ≡ 1 = same ∙ ap (λ s. s.id) e in ground arith
alone p (Memᴰ.tail (Memᴰ.head e)) same = sym e
alone p (Memᴰ.tail (Memᴰ.tail m)) same = elim m [ ]

tick-kept_example :
    Memᴰ
      (schedule 2 11 (some 200))
      (tick read_text never (λ _. 100) parsed 100 (calm scheduled_db)).1.db.schedules
tick-kept_example =
    tick-kept read_text never (λ _. 100) (schedule 2 11 (some 200)) parsed 100 (calm scheduled_db)
      alone (inr (inr (inr (200, refl, omega arith)))) (Memᴰ.tail (Memᴰ.head refl))
