-- ===== src/Panel/Scheduler/Quietly.antt =====
-- That running the tasks of crates/panel/src/scheduler.rs touches no schedule, and how long it waits.
use oxydactylus.Base.{
  ℕ, ◌+◌, ◌≤◌, String, Bool, true, false, not, ◌&&◌, ◌||◌, str_eq, ◌≡◌, refl, ◌∙◌, Option, none,
  some, List, [], ◌∷◌, arith, if◌then◌else◌,
}
use oxydactylus.Panel.Error.{PanelError, internal, text, of_text, Result, ok, err}
use oxydactylus.Panel.Store.{
  Uuid, Time, NodeRow, ScheduleTask, Db, World, NodeClient, Request, Panel, start, stop,
  send_command, sleep, pure, raise, or_raise, attempt, query, fetch_one, execute, send, open_client,
  ◌>>=◌, ◌>>◌, continue,
}
use oxydactylus.Panel.Access.{server_by_id, fetch_server, node_by_id}
use oxydactylus.Panel.Scheduler.{
  add_entry, seconds_of, run_power, run_command, run_action, run_task, run_tasks, failed_with,
}

-- No schedule is changed, no statement fails where none is going to, and at most so many seconds are
-- waited.
abbrev pub IsSteady : {A : Type 0} → ℕ → Panel A → Type 0
IsSteady n m =
    (w : World)
    → ((m w).1.db.schedules ≡ w.db.schedules)
      × (w.faults ≡ [] → (m w).1.faults ≡ [])
      × ((m w).1.slept ≤ w.slept + n)

-- The seconds that the tasks ask for.
abbrev pub waits : List ScheduleTask → ℕ
waits [] = 0
waits (t ∷ ts) = seconds_of t.time_offset + waits ts

pub raise-IsSteady : (A : Type 0) (x : PanelError) → IsSteady 0 (raise {A = A} x)
raise-IsSteady A x w = (refl, λ e. e, ground arith)

module _ {A : Type 0} where
  pub pure-IsSteady : (a : A) → IsSteady 0 (pure a)
  pure-IsSteady a w = (refl, λ e. e, ground arith)

  pub or_raise-IsSteady : (x : PanelError) (o : Option A) → IsSteady 0 (or_raise x o)
  or_raise-IsSteady x none w = (refl, λ e. e, ground arith)
  or_raise-IsSteady x (some a) w = (refl, λ e. e, ground arith)

  pub attempt-IsSteady : (m : Panel A) → IsSteady 0 m → IsSteady 0 (attempt m)
  attempt-IsSteady m h w = h w

  pub query-IsSteady : (f : Db → A) → IsSteady 0 (query f)
  unfolding query
  query-IsSteady f w = (ground arith, λ e. ground arith, ground arith)

  pub fetch_one-IsSteady : (f : Db → Option A) → IsSteady 0 (fetch_one f)
  unfolding fetch_one
  fetch_one-IsSteady f w = (ground arith, λ e. ground arith, ground arith)

pub fetch_one-db : {A : Type 0} (f : Db → Option A) (w : World) → (fetch_one f w).1.db ≡ w.db
unfolding fetch_one
fetch_one-db f w = ground arith

pub bind-IsSteady :
    {A B : Type 0} (k : ℕ) (m : Panel A) (f : A → Panel B)
    → IsSteady 0 m
    → ((a : A) → IsSteady k (f a))
    → IsSteady k (m >>= f)
bind-IsSteady {A} {B} k m f hm hf w = go (m w).0
  where
    go :
        (r : Result A)
        → ((continue r f (m w).1).1.db.schedules ≡ w.db.schedules)
          × (w.faults ≡ [] → (continue r f (m w).1).1.faults ≡ [])
          × ((continue r f (m w).1).1.slept ≤ w.slept + k)
    go (ok a) =
        let (same, calm, time) = hm w in
        let (same', calm', time') = hf a (m w).1 in (same' ∙ same, λ e. calm' (calm e), omega arith)
    go (err x) = let (same, calm, time) = hm w in (same, calm, omega arith)

pub if-IsSteady :
    {A : Type 0} (k : ℕ) (b : Bool) (m n : Panel A)
    → IsSteady k m
    → IsSteady k n
    → IsSteady k (λ w. if b then m w else n w)
if-IsSteady k true m n hm hn = hm
if-IsSteady k false m n hm hn = hn

sleep_then-IsSteady :
    {A : Type 0} (n k : ℕ) (m : Panel A) → IsSteady k m → IsSteady (n + k) (sleep n >> m)
unfolding sleep
sleep_then-IsSteady n k m h w =
    let (same, calm, time) = h (record w { slept = w.slept + n }) in (same, calm, omega arith)

send-IsSteady : (client : NodeClient) (r : Request) → IsSteady 0 (send client r)
unfolding send
send-IsSteady client r w = (ground arith, λ e. ground arith, ground arith)

open_client-IsSteady : (a t : String) → IsSteady 0 (open_client a t)
unfolding open_client
open_client-IsSteady a t w = (ground arith, λ e. ground arith, ground arith)

pub fetch_server-IsSteady : (id : Uuid) → IsSteady 0 (fetch_server id)
unfolding fetch_server
fetch_server-IsSteady id = fetch_one-IsSteady (server_by_id id)

log-IsSteady :
    (schedule_id server_id : Uuid) (t : ScheduleTask) (r : Result (Unit {0}))
    → IsSteady 0 (execute (add_entry schedule_id server_id t r))
unfolding execute add_entry
log-IsSteady schedule_id server_id t r w = (ground arith, λ e. ground arith, ground arith)

-- A connection and one request, and what may follow.
one_request-IsSteady :
    {A : Type 0} (a t : String) (r : Request) (f : Unit {0} → Panel A)
    → ((u : Unit {0}) → IsSteady 0 (f u))
    → IsSteady 0 (open_client a t >>= λ client. send client r >>= f)
one_request-IsSteady a t r f h =
    bind-IsSteady 0 (open_client a t) _ (open_client-IsSteady a t)
      λ client. bind-IsSteady 0 (send client r) f (send-IsSteady client r) h

request-IsSteady :
    (a t : String) (r : Request) → IsSteady 0 (open_client a t >>= λ client. send client r)
request-IsSteady a t r =
    bind-IsSteady 0 (open_client a t) _ (open_client-IsSteady a t) λ client. send-IsSteady client r

run_power-IsSteady :
    (id : Uuid) (n : NodeRow) (action : String) → IsSteady 0 (run_power id n action)
unfolding run_power
run_power-IsSteady id n action =
    if-IsSteady 0 (str_eq action "start") _ _ (request-IsSteady n.grpc_addr n.token (start id)) (
      if-IsSteady 0 (str_eq action "stop") _ _ (request-IsSteady n.grpc_addr n.token (stop id 10)) (
        if-IsSteady 0 (str_eq action "restart") _ _
          (one_request-IsSteady n.grpc_addr n.token (stop id 10) _
            λ _. request-IsSteady n.grpc_addr n.token (start id))
          (raise-IsSteady (Unit {0}) (internal (text "unknown power action")))))

module _ (from_json : String → Option String) (upcoming : String → Option (Option Time))
    (last_run : Uuid → Time) where
  run_action-IsSteady :
      (id : Uuid) (action payload : String) (n : NodeRow)
      → IsSteady 0 (run_action from_json upcoming last_run id action payload n)
  unfolding run_action run_command
  run_action-IsSteady id action payload n =
      if-IsSteady 0 (str_eq action "power") _ _
        (bind-IsSteady 0 (or_raise (internal (text "not a text")) (from_json payload)) _
          (or_raise-IsSteady (internal (text "not a text")) (from_json payload))
          (run_power-IsSteady id n))
        (if-IsSteady 0 (str_eq action "command") _ _
          (bind-IsSteady 0 (or_raise (internal (text "not a text")) (from_json payload)) _
            (or_raise-IsSteady (internal (text "not a text")) (from_json payload))
            λ c. request-IsSteady n.grpc_addr n.token (send_command id c))
          (if-IsSteady 0 (str_eq action "backup") _ _
            (raise-IsSteady (Unit {0}) (internal (text "backup action not yet implemented")))
            (raise-IsSteady (Unit {0}) (internal (of_text "unknown action: {}" action)))))

  run_task-IsSteady :
      (id : Uuid) (action payload : String)
      → IsSteady 0 (run_task from_json upcoming last_run id action payload)
  unfolding run_task
  run_task-IsSteady id action payload =
      bind-IsSteady 0 (fetch_server id) _ (fetch_server-IsSteady id) λ server.
        bind-IsSteady 0 (fetch_one (node_by_id server.node_id)) _
          (fetch_one-IsSteady (node_by_id server.node_id)) (run_action-IsSteady id action payload)

  pub run_tasks-IsSteady :
      (schedule_id server_id : Uuid) (failed : Bool) (ts : List ScheduleTask)
      → IsSteady (waits ts) (run_tasks from_json upcoming last_run schedule_id server_id failed ts)
  unfolding run_tasks
  run_tasks-IsSteady schedule_id server_id failed [] = pure-IsSteady tt
  run_tasks-IsSteady schedule_id server_id failed (t ∷ ts) =
      let task : Panel (Unit {0}) =
        run_task from_json upcoming last_run server_id t.action t.payload in
      let log : Result (Unit {0}) → Panel (Unit {0}) =
        λ r. execute (add_entry schedule_id server_id t r) in
      let again : Result (Unit {0}) → Panel (Unit {0}) = λ r.
        run_tasks from_json upcoming last_run schedule_id server_id (failed || failed_with r) ts in
      let n : ℕ = seconds_of t.time_offset in
      if-IsSteady (n + waits ts) (failed && not t.continue_on_failure) (pure tt)
        (sleep n >> (attempt task >>= λ r. attempt (log r) >> again r))
        (λ w. (refl, λ e. e, omega arith))
        (sleep_then-IsSteady n (waits ts) (attempt task >>= λ r. attempt (log r) >> again r) (
          bind-IsSteady (waits ts) (attempt task) (λ r. attempt (log r) >> again r)
            (attempt-IsSteady task (run_task-IsSteady server_id t.action t.payload))
            λ r.
              bind-IsSteady (waits ts) (attempt (log r)) (λ _. again r)
                (attempt-IsSteady (log r) (log-IsSteady schedule_id server_id t r))
                λ _. run_tasks-IsSteady schedule_id server_id (failed || failed_with r) ts))
