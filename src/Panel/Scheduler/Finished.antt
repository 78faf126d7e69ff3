-- ===== src/Panel/Scheduler/Finished.antt =====
-- That a run of crates/panel/src/scheduler.rs ends with the schedule free for the next one, after the
-- waits that its tasks ask for.
use oxydactylus.Base.{ℕ, ◌+◌, if◌then◌else◌, false, ◌==◌, ◌≡◌, List, [], ◌∷◌, Memᴰ}
use oxydactylus.Base.Int.{pos, pos_part, ◌≤ℤ◌}
use oxydactylus.Panel.Store.{Uuid, ScheduleInfo, ScheduleTask, World, Panel}

-- No task of the schedule has a negative offset.
abbrev pub NoneNegative : Uuid → List ScheduleTask → Type 0
NoneNegative id ts = (t : ScheduleTask) → Memᴰ t ts → t.schedule_id ≡ id → pos 0 ≤ℤ t.time_offset

-- The offsets of the tasks of the schedule, added up.
abbrev pub offsets_of : Uuid → List ScheduleTask → ℕ
offsets_of id [] = 0
offsets_of id (t ∷ ts) =
    let rest = offsets_of id ts in
    if t.schedule_id == id then pos_part t.time_offset + rest else rest

-- No schedule with the identifier is being processed.
abbrev pub IsIdle : Uuid → World → Type 0
IsIdle id w = (s : ScheduleInfo) → Memᴰ s w.db.schedules → s.id ≡ id → s.is_processing ≡ false
