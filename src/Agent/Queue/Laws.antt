-- ===== src/Agent/Queue/Laws.antt =====
-- What holds of the agent's queue over every list of events.
use synapse_stellar.Prelude.{
  ℕ, zero, suc, ◌+◌, ◌-◌, ◌≤◌, ◌<◌, ◌≡◌, refl, sym, ◌∙◌, ap, ◌⊎◌, inl, inr, true, Option, none,
  some, List, [], ◌∷◌, ◌++◌, append-nil, append_assoc, length, length-append, replicate, arith,
  Bool-cases, ltb, leb,
}
use synapse_stellar.Agent.Queue.{
  Limits, Admission, shutting_down, at_capacity, queued, started, Agent, Run, Event, submit,
  settles, drains, new_agent, fresh_run, run, drain, settle, is_idle, step, steps, admit, begin,
  shift_queue,
}

module _ (Task : Type 0) (limits : Limits) where
  pub record Inv (a : Agent Task) : Type 0 where
    pub within_limit : a.active_tasks ≤ limits.max_concurrent_tasks
    pub within_capacity : length a.task_queue ≤ limits.queue_capacity
    pub saturated : (a.task_queue ≡ []) ⊎ (limits.max_concurrent_tasks ≤ a.active_tasks)

  run-Inv : (a : Agent Task) (task : Task) → Inv a → Inv (run Task limits a task).1
  unfolding run
  run-Inv a task v = ground (arith, length-append a.task_queue (task ∷ []))

  settle-Inv : (a : Agent Task) → 0 < a.active_tasks → Inv a → Inv (settle Task limits a).1
  unfolding settle
  settle-Inv a h v = ground arith

  agent-admit :
      (r : Run Task) (task : Task) (out : Admission × Agent Task)
      → (admit Task r task out).agent ≡ out.1
  unfolding admit
  agent-admit r task (shutting_down, a) = refl
  agent-admit r task (at_capacity n, a) = refl
  agent-admit r task (queued, a) = refl
  agent-admit r task (started, a) = refl

  agent-begin : (r : Run Task) (out : Option Task × Agent Task) → (begin Task r out).agent ≡ out.1
  unfolding begin
  agent-begin r (none, a) = refl
  agent-begin r (some task, a) = refl

  step-Inv : (r : Run Task) (e : Event Task) → Inv r.agent → Inv (step Task limits r e).agent
  unfolding step drain
  step-Inv r (submit task) v =
      rw (agent-admit r task (run Task limits r.agent task)) (run-Inv r.agent task v)
  step-Inv r settles v = elim (Bool-cases (ltb 0 r.agent.active_tasks)) [
    | inl busy ↦
        rw (busy, agent-begin r (settle Task limits r.agent)) (settle-Inv r.agent (ground arith) v)
    | inr idle ↦ rw idle v
  ]
  step-Inv r drains v = record {
    within_limit = v.within_limit;
    within_capacity = v.within_capacity;
    saturated = v.saturated;
  }

  -- The tasks that were accepted are those that were started, followed by those that wait.
  abbrev pub Fifo : Run Task → Type 0
  Fifo r = r.accepted ≡ r.begun ++ r.agent.task_queue

  admit-Fifo :
      (r : Run Task) (task : Task)
      → Inv r.agent
      → Fifo r
      → Fifo (admit Task r task (run Task limits r.agent task))
  unfolding admit run
  admit-Fifo r task v f = ground (
    arith,
    append_assoc r.begun r.agent.task_queue (task ∷ []),
    append-nil r.begun,
    append-nil (r.begun ++ task ∷ []),
  )

  shift_queue-Fifo :
      (r : Run Task) (a : Agent Task) (waiting : List Task)
      → a.task_queue ≡ waiting
      → r.accepted ≡ r.begun ++ waiting
      → Fifo (begin Task r (shift_queue Task a waiting))
  unfolding begin
  shift_queue-Fifo r a [] e f = rw e f
  shift_queue-Fifo r a (next ∷ rest) e f = f ∙ sym (append_assoc r.begun (next ∷ []) rest)

  settle-Fifo :
      (r : Run Task) → Inv r.agent → Fifo r → Fifo (begin Task r (settle Task limits r.agent))
  unfolding begin settle
  settle-Fifo r v f =
      elim (Bool-cases (leb limits.max_concurrent_tasks (r.agent.active_tasks - 1))) [
        | inl full ↦ rw full f
        | inr free ↦ rw free (
            shift_queue-Fifo r (record r.agent { active_tasks = r.agent.active_tasks - 1 })
              r.agent.task_queue refl f)
      ]

  step-Fifo : (r : Run Task) (e : Event Task) → Inv r.agent → Fifo r → Fifo (step Task limits r e)
  unfolding step drain
  step-Fifo r (submit task) v f = admit-Fifo r task v f
  step-Fifo r settles v f = elim (Bool-cases (ltb 0 r.agent.active_tasks)) [
    | inl busy ↦ rw busy (settle-Fifo r v f)
    | inr idle ↦ rw idle f
  ]
  step-Fifo r drains v f = f

  steps-Inv :
      (r : Run Task) (es : List (Event Task)) → Inv r.agent → Inv (steps Task limits r es).agent
  unfolding steps
  steps-Inv r [] v = v
  steps-Inv r (e ∷ es) v = steps-Inv (step Task limits r e) es (step-Inv r e v)

  steps-Fifo :
      (r : Run Task) (es : List (Event Task)) → Inv r.agent → Fifo r → Fifo (steps Task limits r es)
  unfolding steps
  steps-Fifo r [] v f = f
  steps-Fifo r (e ∷ es) v f =
      steps-Fifo (step Task limits r e) es (step-Inv r e v) (step-Fifo r e v f)

  new_agent-Inv : Inv (new_agent Task)
  unfolding new_agent
  new_agent-Inv = record {
    within_limit = omega arith;
    within_capacity = omega arith;
    saturated = inl refl;
  }

  -- From a new agent on, whatever is submitted, settles or drains, and in whatever order: no more
  -- tasks run than `MAX_CONCURRENT_TASKS`, no more wait than `QUEUE_CAPACITY`, and a task waits only
  -- while every slot is taken.
  pub steps_bounded :
      (es : List (Event Task))
      → let a = (steps Task limits (fresh_run Task) es).agent in
        (a.active_tasks ≤ limits.max_concurrent_tasks)
        × (length a.task_queue ≤ limits.queue_capacity)
        × ((a.task_queue ≡ []) ⊎ (a.active_tasks ≡ limits.max_concurrent_tasks))
  steps_bounded es =
      let v = steps-Inv (fresh_run Task) es new_agent-Inv in
      (v.within_limit, v.within_capacity, ground (arith, v))

  fresh_run-Fifo : Fifo (fresh_run Task)
  unfolding new_agent
  fresh_run-Fifo = refl

  -- From a new agent on, tasks are started in the order in which they were accepted: the accepted
  -- ones are, in order, those that were started and then those that wait.
  pub steps_in_order : (es : List (Event Task)) → Fifo (steps Task limits (fresh_run Task) es)
  steps_in_order es = steps-Fifo (fresh_run Task) es new_agent-Inv fresh_run-Fifo

  step_draining :
      (q : Run Task) (e : Event Task)
      → q.agent.is_draining ≡ true
      → ((step Task limits q e).agent.is_draining ≡ true)
        × ((step Task limits q e).accepted ≡ q.accepted)
  unfolding step run drain admit settle begin
  step_draining q (submit task) d = ground arith
  step_draining q settles d = ground arith
  step_draining q drains d = (refl, refl)

  -- A draining agent accepts nothing more.
  pub accepted-steps_draining :
      (r : Run Task) (es : List (Event Task))
      → r.agent.is_draining ≡ true
      → (steps Task limits r es).accepted ≡ r.accepted
  unfolding steps
  accepted-steps_draining r [] d = refl
  accepted-steps_draining r (e ∷ es) d =
      let (still, same) = step_draining r e d in
      accepted-steps_draining (step Task limits r e) es still ∙ same

  settle_one :
      (r : Run Task)
      → 0 < r.agent.active_tasks
      → let r' = step Task limits r settles in
        (r'.agent.active_tasks + length r'.agent.task_queue + 1
          ≡ r.agent.active_tasks + length r.agent.task_queue)
        × (r'.accepted ≡ r.accepted)
  unfolding step settle begin
  settle_one r h = ground arith

  settle_all :
      (n : ℕ) (r : Run Task)
      → 0 < limits.max_concurrent_tasks
      → Inv r.agent
      → Fifo r
      → r.agent.active_tasks + length r.agent.task_queue ≡ n
      → let r' = steps Task limits r (replicate n settles) in
        (is_idle Task r'.agent ≡ true) × (r'.begun ≡ r.accepted)
  unfolding steps is_idle
  settle_all zero r m v f e =
      let empty : r.agent.task_queue ≡ [] = ground arith in
      (ground arith, sym (f ∙ ap (◌++◌ r.begun) empty ∙ append-nil r.begun))
  settle_all (suc n) r m v f e =
      let busy : 0 < r.agent.active_tasks = ground arith in
      let one = settle_one r busy in
      let rest =
        settle_all n (step Task limits r settles) m (step-Inv r settles v) (step-Fifo r settles v f)
          (omega (arith, one.0)) in
      (rest.0, rest.1 ∙ one.1)

  -- With a limit of at least one task, an agent that is given nothing more to do becomes idle, and
  -- then every task that it ever accepted has been started: from whatever events have led to, it
  -- takes one settling for each task that runs or waits.
  pub steps_settle_all :
      (es : List (Event Task))
      → 0 < limits.max_concurrent_tasks
      → let r = steps Task limits (fresh_run Task) es in
        let r' =
          steps Task limits r
            (replicate (r.agent.active_tasks + length r.agent.task_queue) settles) in
        (is_idle Task r'.agent ≡ true) × (r'.begun ≡ r.accepted)
  steps_settle_all es m =
      settle_all _ (steps Task limits (fresh_run Task) es) m
        (steps-Inv (fresh_run Task) es new_agent-Inv) (steps_in_order es) refl
