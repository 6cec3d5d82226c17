-- ===== src/Agent/Queue.antt =====
-- The concurrency limit, the task queue and draining in `PayFiAgent` of backend/agent.ts. A method is
-- modelled up to its first wait; a task that runs settles at a time that the environment chooses.
-- The type of tasks is a parameter.
pub mod Laws
mod Tests
use synapse_stellar.Prelude.{
  ℕ, suc, ◌+◌, ◌-◌, ◌≤◌, ◌≡◌, Bool, true, false, ◌&&◌, Option, none, some, List, [], ◌∷◌, ◌++◌,
  length, ltb, leb, if◌then◌else◌,
}

pub record Limits : Type 0 where
  pub max_concurrent_tasks : ℕ
  pub queue_capacity : ℕ

-- What `run` does with a task at once. The two rejections carry their message's content.
pub data Admission : Type 0 where
  shutting_down : Admission
  at_capacity : (active_tasks : ℕ) → Admission
  queued : Admission
  started : Admission

module _ (Task : Type 0) where
  pub record Agent : Type 0 where
    pub active_tasks : ℕ
    pub is_draining : Bool
    pub task_queue : List Task

  pub new_agent : Agent
  new_agent = record { active_tasks = 0; is_draining = false; task_queue = [] }

  -- The first statement of `executeTask`.
  abbrev reserve_slot : Agent → Agent
  reserve_slot a = record a { active_tasks = a.active_tasks + 1 }

  pub drain : Agent → Agent
  drain a = record a { is_draining = true }

  pub run : Limits → Agent → Task → Admission × Agent
  run limits a task =
      if a.is_draining
      then (shutting_down, a)
      else if leb limits.max_concurrent_tasks a.active_tasks
      then if ltb 0 limits.queue_capacity && ltb (length a.task_queue) limits.queue_capacity
        then (queued, record a { task_queue = a.task_queue ++ task ∷ [] })
        else (at_capacity a.active_tasks, a)
      else (started, reserve_slot a)

  -- `shift` and `executeTask` of the task at the front.
  abbrev shift_queue : Agent → List Task → Option Task × Agent
  shift_queue a [] = (none, a)
  shift_queue a (next ∷ rest) = (some next, reserve_slot (record a { task_queue = rest }))

  -- The task that `dispatchQueued` starts, if it starts one.
  dispatch_queued : Limits → Agent → Option Task × Agent
  dispatch_queued limits a =
      if leb limits.max_concurrent_tasks a.active_tasks
      then (none, a)
      else shift_queue a a.task_queue

  -- The `finally` of `executeTask`, for an agent with a task that runs.
  pub settle : Limits → Agent → Option Task × Agent
  unfolding dispatch_queued
  settle limits a = dispatch_queued limits (record a { active_tasks = a.active_tasks - 1 })

  -- The condition on which `waitForPendingTasks` resolves.
  pub is_idle : Agent → Bool
  is_idle a = leb a.active_tasks 0 && leb (length a.task_queue) 0

  pub data Event : Type 0 where
    submit : Task → Event
    settles : Event
    drains : Event

  -- An agent with its history: the tasks that were accepted and those that were started, in order.
  pub record Run : Type 0 where
    pub agent : Agent
    pub accepted : List Task
    pub begun : List Task

  abbrev pub fresh_run : Run
  fresh_run = record { agent = new_agent; accepted = []; begun = [] }

  admit : Run → Task → Admission × Agent → Run
  admit r task (shutting_down, a) = record r { agent = a }
  admit r task (at_capacity n, a) = record r { agent = a }
  admit r task (queued, a) = record r { agent = a; accepted = r.accepted ++ task ∷ [] }
  admit r task (started, a) = record {
    agent = a;
    accepted = r.accepted ++ task ∷ [];
    begun = r.begun ++ task ∷ [];
  }

  begin : Run → Option Task × Agent → Run
  begin r (none, a) = record r { agent = a }
  begin r (some task, a) = record r { agent = a; begun = r.begun ++ task ∷ [] }

  -- Nothing settles while nothing runs.
  pub step : Limits → Run → Event → Run
  unfolding admit begin
  step limits r (submit task) = admit r task (run limits r.agent task)
  step limits r settles = if ltb 0 r.agent.active_tasks then begin r (settle limits r.agent) else r
  step limits r drains = record r { agent = drain r.agent }

  pub steps : Limits → Run → List Event → Run
  steps limits r [] = r
  steps limits r (e ∷ es) = steps limits (step limits r e) es
