-- ===== src/Panel/Schedules/Tasks.antt =====
-- The order of the tasks of a schedule, and who may delete them: crates/panel/src/schedules.rs.
use oxydactylus.Base.{
  zero, suc, true, ◌==◌, ==_iff, ◌≡◌, refl, sym, ap, ◌∙◌, inl, inr, Bool, Bool-cases, Option, none,
  some, List, [], ◌∷◌, Memᴰ, select, select-Memᴰ, arith,
}
use oxydactylus.Base.Int.{ℤ, pos, negsuc, ◌≤ℤ◌, ◌<ℤ◌}
use oxydactylus.Panel.Error.{ok}
use oxydactylus.Panel.Store.{Uuid, Time, Server, ScheduleTask, Db, World, query}
use oxydactylus.Panel.Store.Frame.{
  ok_bind, fetch_one-Quiet, query-Quiet, query_sound, statement_sound,
}
use oxydactylus.Panel.Access.{AuthUser, server_by_id, fetch_server}
use oxydactylus.Panel.Schedules.{
  CreateScheduleTaskRequest, check_owner, unwrap_or, max_ℤ, with_max, max_of, max_sequence,
  after_i32, insert_task, new_task, create_schedule_task,
}

max_of-some :
    (ts : List ScheduleTask) (t : ScheduleTask) → Memᴰ t ts → (m : ℤ) × (max_of ts ≡ some m)
max_of-some [] t mem = elim mem [ ]
max_of-some (u ∷ ts) t mem = (with_max u.sequence_id (max_of ts), refl)

max_of-above :
    (ts : List ScheduleTask) (t : ScheduleTask) (m : ℤ)
    → Memᴰ t ts
    → max_of ts ≡ some m
    → t.sequence_id ≤ℤ m
max_of-above [] t m mem e = elim mem [ ]
max_of-above (u ∷ ts) t m (Memᴰ.head same) e = first (max_of ts) refl
  where
    first : (o : Option ℤ) → max_of ts ≡ o → t.sequence_id ≤ℤ m
    first none e' = let top : u.sequence_id ≡ m = ground arith in rw (same, sym top) (omega arith)
    first (some n) e' =
        let top : max_ℤ u.sequence_id n ≡ m = ground arith in rw (same, sym top) (ground arith)
max_of-above (u ∷ ts) t m (Memᴰ.tail mem) e =
    let (n, en) = max_of-some ts t mem in
    let below : t.sequence_id ≤ℤ n = max_of-above ts t n mem en in
    let top : max_ℤ u.sequence_id n ≡ m = ground arith in rw (sym top) (ground arith)

max_of-bound :
    (ts : List ScheduleTask) (m b : ℤ)
    → ((t : ScheduleTask) → Memᴰ t ts → t.sequence_id ≤ℤ b)
    → max_of ts ≡ some m
    → m ≤ℤ b
max_of-bound [] m b h e = cc
max_of-bound (u ∷ ts) m b h e =
    go (λ n. max_of-bound ts n b (λ t mt. h t (Memᴰ.tail mt))) (max_of ts) refl
  where
    go : ((n : ℤ) → max_of ts ≡ some n → n ≤ℤ b) → (o : Option ℤ) → max_of ts ≡ o → m ≤ℤ b
    go later none e' =
        let top : u.sequence_id ≡ m = ground arith in rw (sym top) (h u (Memᴰ.head refl))
    go later (some n) e' =
        let top : max_ℤ u.sequence_id n ≡ m = ground arith in
        let one : u.sequence_id ≤ℤ b = h u (Memᴰ.head refl) in
        let rest : n ≤ℤ b = later n e' in rw (sym top) (ground arith)

after_i32-above : (m : ℤ) → m ≤ℤ pos 2147483646 → m <ℤ after_i32 m
unfolding after_i32
after_i32-above (pos n) h = ground arith
after_i32-above (negsuc zero) h = omega arith
after_i32-above (negsuc (suc n)) h = omega arith

select-Memᴰ_hit {ℓ} :
    {A : Type ℓ} (p : A → Bool) (xs : List A) (x : A)
    → p x ≡ true
    → Memᴰ x xs
    → Memᴰ x (select p xs)
unfolding select
select-Memᴰ_hit p [] x hit m = elim m [ ]
select-Memᴰ_hit p (y ∷ xs) x hit (Memᴰ.head e) = rw (ap p (sym e) ∙ hit) (Memᴰ.head e)
select-Memᴰ_hit p (y ∷ xs) x hit (Memᴰ.tail m) = elim (Bool-cases (p y)) [
  | inl e ↦ rw e (Memᴰ.tail (select-Memᴰ_hit p xs x hit m))
  | inr e ↦ rw e (select-Memᴰ_hit p xs x hit m)
]

check_owner-Quiet :
    (caller : AuthUser) (s : Server) (w : World) → (check_owner caller s w).1.db ≡ w.db
unfolding check_owner
check_owner-Quiet caller s w = ground arith

-- The number that a new task of a schedule gets.
after_all :
    (schedule_id : Uuid) (d : Db) (t : ScheduleTask)
    → ((u : ScheduleTask) → Memᴰ u d.schedule_tasks → u.sequence_id ≤ℤ pos 2147483646)
    → Memᴰ t d.schedule_tasks
    → t.schedule_id ≡ schedule_id
    → t.sequence_id <ℤ after_i32 (unwrap_or (pos 0) (max_sequence schedule_id d))
unfolding max_sequence
after_all schedule_id d t low m same =
    let own : List ScheduleTask = select (λ u. u.schedule_id == schedule_id) d.schedule_tasks in
    let here : Memᴰ t own =
      select-Memᴰ_hit (λ u. u.schedule_id == schedule_id) d.schedule_tasks t
        ((==_iff t.schedule_id schedule_id).1 same) m in
    let (top, e) = max_of-some own t here in
    let below : t.sequence_id ≤ℤ top = max_of-above own t top here e in
    let bound : top ≤ℤ pos 2147483646 =
      max_of-bound own top (pos 2147483646)
        (λ u mu. low u (select-Memᴰ (λ v. v.schedule_id == schedule_id) d.schedule_tasks u mu).0)
        e in
    let next : top <ℤ after_i32 top = after_i32-above top bound in rw e (omega arith)

-- A task that is created comes after every task that its schedule had, if no number in the table is
-- the greatest `i32`.
create_schedule_task_ok :
    (id : Uuid) (now : Time) (caller : AuthUser) (server_id schedule_id : Uuid)
    (body : CreateScheduleTaskRequest) (w : World) (task t : ScheduleTask)
    → ((u : ScheduleTask) → Memᴰ u w.db.schedule_tasks → u.sequence_id ≤ℤ pos 2147483646)
    → Memᴰ t w.db.schedule_tasks
    → t.schedule_id ≡ schedule_id
    → (create_schedule_task id now caller server_id schedule_id body w).0 ≡ ok task
    → t.sequence_id <ℤ task.sequence_id
unfolding create_schedule_task fetch_server insert_task
create_schedule_task_ok id now caller server_id schedule_id body w task t low m same =
    ok_bind (λ _. t.sequence_id <ℤ task.sequence_id) (fetch_server server_id) _ w task
      (fetch_one-Quiet (server_by_id server_id) w).db
      λ s w1 same1 _.
        ok_bind (λ _. t.sequence_id <ℤ task.sequence_id) (check_owner caller s) _ w1 task
          (check_owner-Quiet caller s w1)
          λ _ w2 same2 _.
            ok_bind (λ _. t.sequence_id <ℤ task.sequence_id) (query (max_sequence schedule_id)) _ w2
              task (query-Quiet (max_sequence schedule_id) w2).db
              λ top w3 same3 e3 h.
                let made =
                  (statement_sound
                    (insert_task
                      (new_task id now schedule_id body (after_i32 (unwrap_or (pos 0) top))))
                    w3 task h).0 in
                let value : top ≡ max_sequence schedule_id w.db =
                  query_sound (max_sequence schedule_id) w2 top e3
                  ∙ ap (max_sequence schedule_id) (same2 ∙ same1) in
                rw (made, value) (after_all schedule_id w.db t low m same)
