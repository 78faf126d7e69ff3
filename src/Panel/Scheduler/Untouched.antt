-- ===== src/Panel/Scheduler/Untouched.antt =====
-- Which schedules a tick of crates/panel/src/scheduler.rs leaves alone.
use mathlib.Core.Path.{subst}
use oxydactylus.Base.{
  ℕ, ◌<◌, ◌⊎◌, none, String, Bool, true, false, not, ◌&&◌, ◌==◌, str_eq, ◌≡◌, ◌≢◌, refl, sym, ap,
  ◌∙◌, inl, inr, Bool-cases, Option, some, List, [], ◌∷◌, Memᴰ, update, select-Memᴰ, arith,
}
use oxydactylus.Panel.Error.{internal, text, Result, ok, err}
use oxydactylus.Panel.Store.{
  Uuid, Time, Server, ScheduleInfo, Db, World, Panel, continue, or_raise, attempt, query, execute,
  ◌>>=◌, ◌>>◌,
}
use oxydactylus.Panel.Store.Frame.{execute_sound, execute_failed, kept_execute, kept_query}
use oxydactylus.Panel.Access.{fetch_server}
use oxydactylus.Panel.Scheduler.{
  is_pending, pending_at, set_processing, finish, tasks_of, run_tasks, next_run, clear_processing,
  run_for, run_schedule, run_all, tick,
}
use oxydactylus.Panel.Scheduler.Quietly.{IsSteady, waits, run_tasks-IsSteady, fetch_server-IsSteady}

-- An update keeps the rows that its clause does not hold for.
update-Memᴰ_miss {ℓ} :
    {A : Type ℓ} (p : A → Bool) (f : A → A) (xs : List A) (x : A)
    → p x ≡ false
    → Memᴰ x xs
    → Memᴰ x (update p f xs)
unfolding update
update-Memᴰ_miss p f [] x miss m = elim m [ ]
update-Memᴰ_miss p f (y ∷ xs) x miss (Memᴰ.head e) = Memᴰ.head (rw (ap p (sym e) ∙ miss) e)
update-Memᴰ_miss p f (y ∷ xs) x miss (Memᴰ.tail m) = Memᴰ.tail (update-Memᴰ_miss p f xs x miss m)

module _ (from_json : String → Option String) (upcoming : String → Option (Option Time))
    (last_run : Uuid → Time) (s : ScheduleInfo) where
  -- The row stands in the table.
  abbrev IsThere : Db → Type 0
  IsThere d = Memᴰ s d.schedules

  -- Inactive, being processed, with no next run, or with one that is later.
  abbrev pub IsLeft : Time → Type 0
  IsLeft now =
      (s.is_active ≡ false)
      ⊎ (s.is_processing ≡ true)
      ⊎ (s.next_run_at ≡ none)
      ⊎ ((t : Time) × (s.next_run_at ≡ some t) × now < t)

  execute-IsThere :
      (q : Db → Db) (w : World) → IsThere w.db → IsThere (q w.db) → IsThere (execute q w).1.db
  unfolding execute
  execute-IsThere q w m m' = go (execute q w).0 refl
    where
      go : (r : Result (Unit {0})) → (execute q w).0 ≡ r → IsThere (execute q w).1.db
      go (ok u) e = subst IsThere (sym (execute_sound q w u e)) m'
      go (err x) e = subst IsThere (sym (execute_failed q w x e)) m

  then-IsThere :
      {A B : Type 0} (k : ℕ) (m : Panel A) (n : Panel B) (w : World)
      → IsSteady k m
      → ((w' : World) → IsThere w'.db → IsThere (n w').1.db)
      → IsThere w.db
      → IsThere ((m >> n) w).1.db
  then-IsThere {A} k m n w h later there = go (m w).0
    where
      stays : IsThere (m w).1.db
      stays = subst (λ l. Memᴰ s l) (sym (h w).0) there

      go : (r : Result A) → IsThere (continue r (λ _. n) (m w).1).1.db
      go (ok a) = later (m w).1 stays
      go (err x) = stays

  module _ (p : ScheduleInfo) (other : s.id ≢ p.id) where
    missed : (s.id == p.id) ≡ false
    missed = ground arith

    set_processing-IsThere :
        (flag : Bool) (d : Db) → IsThere d → IsThere (set_processing flag p.id d)
    unfolding set_processing
    set_processing-IsThere flag d =
        update-Memᴰ_miss (λ x. x.id == p.id) (λ x. record x { is_processing = flag }) d.schedules s
          missed

    finish-IsThere :
        (last : Time) (next : Option Time) (d : Db) → IsThere d → IsThere (finish p.id last next d)
    unfolding finish
    finish-IsThere last next d =
        update-Memᴰ_miss (λ x. x.id == p.id)
          (λ x. record x { is_processing = false; last_run_at = some last; next_run_at = next })
          d.schedules s missed

    clear_processing-IsThere :
        (w : World)
        → IsThere w.db
        → IsThere (clear_processing from_json upcoming last_run p.id w).1.db
    unfolding clear_processing
    clear_processing-IsThere w m =
        execute-IsThere (set_processing false p.id) w m (set_processing-IsThere false w.db m)

    run_for-IsThere :
        (id : Uuid) (r : Result Server) (w : World)
        → IsThere w.db
        → IsThere (run_for from_json upcoming last_run id p r w).1.db
    unfolding run_for
    run_for-IsThere id (err x) w m = clear_processing-IsThere w m
    run_for-IsThere id (ok server) w m =
        elim (Bool-cases (p.only_when_online && not (str_eq server.status "running"))) [
          | inl e ↦ rw (e, run_for) (clear_processing-IsThere w m)
          | inr e ↦ rw (e, run_for) (go w m)
        ]
      where
        last_step :
            (w : World)
            → IsThere w.db
            → IsThere
                (execute
                  (finish p.id (last_run p.id) (next_run from_json upcoming last_run p))
                  w).1.db
        last_step w m =
            execute-IsThere (finish p.id (last_run p.id) (next_run from_json upcoming last_run p)) w
              m (finish-IsThere (last_run p.id) (next_run from_json upcoming last_run p) w.db m)

        go :
            (w : World)
            → IsThere w.db
            → IsThere
                ((query (tasks_of p.id) >>= λ tasks.
                    run_tasks from_json upcoming last_run p.id id false tasks
                    >> execute
                        (finish p.id (last_run p.id) (next_run from_json upcoming last_run p)))
                  w).1.db
        go w m = kept_query IsThere (tasks_of p.id) _ w m λ tasks w' same _.
            then-IsThere (waits tasks) (run_tasks from_json upcoming last_run p.id id false tasks)
              (execute (finish p.id (last_run p.id) (next_run from_json upcoming last_run p))) w'
              (run_tasks-IsSteady from_json upcoming last_run p.id id false tasks) last_step
              (subst IsThere (sym same) m)

  module _ (parse_uuid : Uuid → Option Uuid) where
    run_schedule-IsThere :
        (p : ScheduleInfo) (w : World)
        → s.id ≢ p.id
        → IsThere w.db
        → IsThere (run_schedule from_json upcoming last_run parse_uuid p w).1.db
    unfolding run_schedule
    run_schedule-IsThere p w other m =
        kept_execute IsThere (set_processing true p.id) _ w m λ _ w' same.
          go (parse_uuid p.server_id) w'
            (subst IsThere (sym same) (set_processing-IsThere p other true w.db m))
      where
        go :
            (o : Option Uuid) (w : World)
            → IsThere w.db
            → IsThere
                ((or_raise (internal (text "not a UUID")) o >>= λ id.
                    attempt (fetch_server id) >>= run_for from_json upcoming last_run id p)
                  w).1.db
        go none w m = m
        go (some id) w m =
            run_for-IsThere p other id (fetch_server id w).0 (fetch_server id w).1
              (subst (λ ss. Memᴰ s ss) (sym (fetch_server-IsSteady id w).0) m)

    run_all-IsThere :
        (ps : List ScheduleInfo) (w : World)
        → ((p : ScheduleInfo) → Memᴰ p ps → s.id ≢ p.id)
        → IsThere w.db
        → IsThere (run_all from_json upcoming last_run parse_uuid ps w).1.db
    unfolding run_all
    run_all-IsThere [] w apart m = m
    run_all-IsThere (p ∷ ps) w apart m =
        run_all-IsThere ps (run_schedule from_json upcoming last_run parse_uuid p w).1
          (λ q mq. apart q (Memᴰ.tail mq)) (run_schedule-IsThere p w (apart p (Memᴰ.head refl)) m)

    not_pending : (now : Time) → IsLeft now → is_pending now s ≡ false
    not_pending now (inl e) = rw e refl
    not_pending now (inr (inl e)) = grind arith
    not_pending now (inr (inr (inl e))) = grind arith
    not_pending now (inr (inr (inr (t, e, late)))) = grind arith

    -- A schedule that is inactive, that is being processed already, that has no next run, or whose
    -- next run is later than now is left exactly as it is by a tick, whichever statements fail and
    -- whatever the other schedules do, if no other schedule has its identifier.
    pub tick-kept :
        (now : Time) (w : World)
        → ((p : ScheduleInfo) → Memᴰ p w.db.schedules → s.id ≡ p.id → s ≡ p)
        → IsLeft now
        → Memᴰ s w.db.schedules
        → Memᴰ s (tick from_json upcoming last_run parse_uuid now w).1.db.schedules
    unfolding tick pending_at
    tick-kept now w only idle m =
        kept_query IsThere (pending_at now) (run_all from_json upcoming last_run parse_uuid) w m
          λ ps w' same value.
            run_all-IsThere ps w'
              (λ p mp e.
                let (mem, due) =
                  select-Memᴰ (is_pending now) w.db.schedules p (subst (λ l. Memᴰ p l) value mp) in
                let clash : is_pending now p ≡ false =
                  subst (λ q. is_pending now q ≡ false) (only p mem e) (not_pending now idle) in
                cc)
              (subst IsThere (sym same) m)
