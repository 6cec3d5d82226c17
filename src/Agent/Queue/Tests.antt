-- ===== src/Agent/Queue/Tests.antt =====
-- Two slots, two places to wait: runs of the queue of backend/agent.ts.
use synapse_stellar.Prelude.{
  ℕ, ◌+◌, ◌≤◌, ◌≡◌, refl, ◌⊎◌, true, List, [], ◌∷◌, length, replicate, arith,
}
use synapse_stellar.Agent.Queue.{
  Limits, Run, Event, submit, settles, drains, fresh_run, new_agent, run, drain, settle, is_idle,
  step, steps,
}
use synapse_stellar.Agent.Queue.Laws.{steps_bounded, steps_settle_all}

abbrev limits : Limits
limits = record { max_concurrent_tasks = 2; queue_capacity = 2 }

-- The fifth task is turned away, and so is the one after draining has begun.
abbrev events : List (Event ℕ)
events = submit 1 ∷ submit 2 ∷ submit 3 ∷ submit 4 ∷ submit 5 ∷ settles ∷ drains ∷ submit 6 ∷ []

reached : Run ℕ
reached = steps ℕ limits (fresh_run ℕ) events

reached_lem : (reached.accepted ≡ 1 ∷ 2 ∷ 3 ∷ 4 ∷ []) × (reached.begun ≡ 1 ∷ 2 ∷ 3 ∷ [])
unfolding reached steps step run settle drain new_agent
reached_lem = (refl, refl)

steps_bounded_example :
    let a = (steps ℕ limits (fresh_run ℕ) events).agent in
    (a.active_tasks ≤ 2) × (length a.task_queue ≤ 2) × ((a.task_queue ≡ []) ⊎ (a.active_tasks ≡ 2))
steps_bounded_example = steps_bounded ℕ limits events

steps_settle_all_example :
    let r = steps ℕ limits (fresh_run ℕ) events in
    let r' =
      steps ℕ limits r (replicate (r.agent.active_tasks + length r.agent.task_queue) settles) in
    (is_idle ℕ r'.agent ≡ true) × (r'.begun ≡ r.accepted)
steps_settle_all_example = steps_settle_all ℕ limits events (omega arith)
