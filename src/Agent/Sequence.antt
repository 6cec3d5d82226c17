-- ===== src/Agent/Sequence.antt =====
-- `runSequence` of backend/agent.ts, on the `executeTask` of Execute. `rejection` is the answer of `run` to
-- a task that it does not admit (Queue has the admission), with its error, and `admitted` the state when the
-- task is begun, after a wait in the queue if there was one: both depend on the other callers. No task
-- carries a correlation id of its own.
use synapse_stellar.Prelude.{
  ℕ, suc, ◌≡◌, refl, ap, ◌⊎◌, inl, inr, Bool, true, false, Option, none, some, List, [], ◌∷◌, ◌++◌,
  String, All, Bool-cases, if◌then◌else◌,
}
use synapse_stellar.Prelude.Results.{Result}
use synapse_stellar.Values.{Value}
use synapse_stellar.Errors.{ErrorType}
use synapse_stellar.Agent.Execute.{AgentTask, AgentResult, Report, TaskType, execute_task}

-- A result with its `sequenceIndex`.
pub record SequenceResult : Type 0 where
  pub result : AgentResult
  pub sequence_index : ℕ

module _ (State E : Type 0) (spending_guard : Value → State → Result E (Unit {0}) × State)
    (tool : TaskType → Value → State → Result E Value × State) (with_network : Value → Value)
    (save_result : AgentResult → State → Result E (Unit {0}) × State)
    (unknown_task_type : String → E) (describe_error : E → String) (get_error_type : E → ErrorType)
    (is_stellar_rpc_error : E → Bool)
    (middlewares : List (
      AgentTask
      → (State → Result E AgentResult × State × List Report)
      → State
      → Result E AgentResult × State × List Report))
    (correlation_id : State → String) (rejection : State → Option String)
    (admitted : State → State) where
  rejected : AgentTask → String → String → AgentResult
  rejected task id error = record {
    success = false;
    task_type = task.type;
    result = none;
    error = some error;
    error_type = none;
    correlation_id = id;
  }

  pub run : AgentTask → State → AgentResult × State × List Report
  unfolding rejected
  run task s = elim (rejection s) [
    | some error ↦ (rejected task (correlation_id s) error, s, [])
    | none ↦
        execute_task State E spending_guard tool with_network save_result unknown_task_type
          describe_error get_error_type is_stellar_rpc_error middlewares task (correlation_id s)
          (admitted s)
  ]

  abbrev stamped : AgentResult → ℕ → SequenceResult
  stamped r index = record { result = r; sequence_index = index }

  -- The loop, from position `index` on.
  pub sequence_from : ℕ → List AgentTask → State → List SequenceResult × State
  sequence_from index [] s = ([], s)
  sequence_from index (task ∷ tasks) s =
      let (r, s', _) = run task s in
      let (more, last) = sequence_from (suc index) tasks s' in
      if r.success then (stamped r index ∷ more, last) else (stamped r index ∷ [], s')

  pub run_sequence : List AgentTask → State → List SequenceResult × State
  unfolding sequence_from
  run_sequence tasks s = sequence_from 0 tasks s

  abbrev Succeeds : SequenceResult → Type 0
  Succeeds r = r.result.success ≡ true

  -- The tasks run one after the other from the one state to the other, with these results: each is the
  -- result of `run` in the state that the tasks before it have left, with its position.
  abbrev pub Chain : ℕ → List AgentTask → State → List SequenceResult → State → Type 0
  Chain index [] s rs s' = (rs ≡ []) × (s' ≡ s)
  Chain index (task ∷ tasks) s rs s' =
      (r : SequenceResult) × (more : List SequenceResult) × (rs ≡ r ∷ more)
      × (r.result ≡ (run task s).0)
      × (r.sequence_index ≡ index)
      × Chain (suc index) tasks (run task s).1 more s'

  -- All the tasks have run and succeeded; or those up to the first that failed have run, and the state is
  -- the one that it left.
  abbrev pub Ends : ℕ → List AgentTask → State → List SequenceResult → State → Type 0
  Ends index tasks s results s' =
      (Chain index tasks s results s' × All Succeeds results)
      ⊎ ((done : List AgentTask) × (task : AgentTask) × (skipped : List AgentTask) × (front : List
            SequenceResult)
          × (last : SequenceResult) × (tasks ≡ done ++ task ∷ skipped)
          × (results ≡ front ++ last ∷ [])
          × Chain index (done ++ task ∷ []) s results s'
          × All Succeeds front
          × (last.result.success ≡ false))

  Ends-cons :
      (index : ℕ) (task : AgentTask) (tasks : List AgentTask) (s s' : State)
      (results : List SequenceResult)
      → (run task s).0.success ≡ true
      → Ends (suc index) tasks (run task s).1 results s'
      → Ends index (task ∷ tasks) s (stamped (run task s).0 index ∷ results) s'
  Ends-cons index task tasks s s' results ok (inl (chain, all)) =
      inl ((stamped (run task s).0 index, results, refl, refl, refl, chain), (ok, all))
  Ends-cons index task tasks s s' results ok
        (inr (done, failing, skipped, front, last, eq, eq', chain, all, bad)) =
      inr (
        task ∷ done,
        failing,
        skipped,
        stamped (run task s).0 index ∷ front,
        last,
        ap (λ l. task ∷ l) eq,
        ap (λ l. stamped (run task s).0 index ∷ l) eq',
        (stamped (run task s).0 index, results, refl, refl, refl, chain),
        (ok, all),
        bad,
      )

  sequence_from-Ends :
      (index : ℕ) (tasks : List AgentTask) (s : State)
      → Ends index tasks s (sequence_from index tasks s).0 (sequence_from index tasks s).1
  unfolding sequence_from
  sequence_from-Ends index [] s = inl ((refl, refl), tt)
  sequence_from-Ends index (task ∷ tasks) s = elim (Bool-cases (run task s).0.success) [
    | inl good ↦ rw good (
        Ends-cons index task tasks s (sequence_from (suc index) tasks (run task s).1).1
          (sequence_from (suc index) tasks (run task s).1).0 good
          (sequence_from-Ends (suc index) tasks (run task s).1))
    | inr bad ↦
        let r = stamped (run task s).0 index in
        rw bad (
          inr
            ([], task, tasks, [], r, refl, refl, (r, [], refl, refl, refl, (refl, refl)), tt, bad))
  ]

  -- The tasks of a sequence run one after the other, each in the state that the one before it has left,
  -- and each result is that of its task with its position: of all the tasks, which have all succeeded, or
  -- of those up to the first that failed, after which nothing is run and the state stays.
  pub run_sequence-Ends :
      (tasks : List AgentTask) (s : State)
      → Ends 0 tasks s (run_sequence tasks s).0 (run_sequence tasks s).1
  unfolding run_sequence
  run_sequence-Ends tasks s = sequence_from-Ends 0 tasks s
