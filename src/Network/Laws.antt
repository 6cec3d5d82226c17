-- ===== src/Network/Laws.antt =====
-- What the backoff of backend/network.ts does with the requests that it holds back.
use synapse_stellar.Prelude.{
  ℕ, ◌≡◌, refl, sym, ap, ◌∙◌, ◌⊎◌, inl, inr, Bool, true, false, Bool-cases, Option, some, List, [],
  ◌∷◌, ◌++◌, append-nil, append_assoc, map, map-append, any, leb, ◌==◌, nat_eq, String,
}
use synapse_stellar.Prelude.Int.{ℤ}
use synapse_stellar.Network.{
  Effect, sent, superseded, BackoffState, call, cleared, clear_backoff, is_throttled,
  handle_rate_limit_response, enqueue, guard, with_backoff_guard, Event, request, rate_limited,
  checked, fires, Run, fresh_run, is_due, step, steps,
}

module _ (Task : Type 0) where
  abbrev pub task_of : Effect Task → Task
  task_of (sent fn) = fn
  task_of (superseded fn) = fn

  abbrev pub waiting : BackoffState Task → List Task
  waiting b = map (λ e. e.1) b.queue

  -- The requests, in order, are those that were settled and then those that wait.
  abbrev pub InOrder : Run Task → Type 0
  InOrder r = map task_of r.effects ++ waiting r.state ≡ r.requests

  map-call :
      (g : ℕ) (queue : List (ℕ × Task))
      → map task_of (map (call Task g) queue) ≡ map (λ e. e.1) queue
  unfolding call
  map-call g [] = refl
  map-call g ((n, fn) ∷ queue) = elim (Bool-cases (g == n)) [
    | inl e ↦ rw e (ap (◌∷◌ fn) (map-call g queue))
    | inr e ↦ rw e (ap (◌∷◌ fn) (map-call g queue))
  ]

  -- What an operation settles, and what it leaves to wait, is what waited before.
  abbrev Keeps : BackoffState Task → List (Effect Task) → BackoffState Task → Type 0
  Keeps b effects b' = map task_of effects ++ waiting b' ≡ waiting b

  -- An open backoff has no queue.
  abbrev pub IsDrained : BackoffState Task → Type 0
  IsDrained b = (b.active ≡ true) ⊎ (b.queue ≡ [])

  cleared-Keeps :
      (b : BackoffState Task)
      → Keeps b (cleared Task b).0 (cleared Task b).1 × ((cleared Task b).1.queue ≡ [])
  unfolding cleared
  cleared-Keeps b = (append-nil _ ∙ map-call b.generation b.queue, refl)

  clear_backoff-Keeps :
      (g : ℕ) (b : BackoffState Task)
      → IsDrained b
      → let out = clear_backoff Task (some g) b in Keeps b out.0 out.1 × IsDrained out.1
  unfolding clear_backoff
  clear_backoff-Keeps g b d = elim (Bool-cases (g == b.generation)) [
    | inl e ↦ rw e (let (k, q) = cleared-Keeps b in (k, inr q))
    | inr e ↦ rw e (refl, d)
  ]

  drained : (b : BackoffState Task) → b.active ≡ false → IsDrained b → b.queue ≡ []
  drained b a (inl t) = cc
  drained b a (inr q) = q

  is_throttled-Keeps :
      (now : ℕ) (b : BackoffState Task)
      → IsDrained b
      → let out = is_throttled Task now b in
        Keeps b out.1 out.2 × IsDrained out.2 × ((out.0 ≡ true) ⊎ (out.2.queue ≡ []))
  unfolding is_throttled clear_backoff
  is_throttled-Keeps now b d = elim (Bool-cases b.active) [
    | inl a ↦ rw a (elim (Bool-cases (leb b.until now)) [
      | inl e ↦ rw e (let (k, q) = cleared-Keeps b in (k, inr q, inr q))
      | inr e ↦ rw e (refl, inl refl, inl refl)
    ])
    | inr a ↦ let q = drained b a d in rw a (refl, inr q, inr q)
  ]

  waiting-enqueue :
      (fn : Task) (b : BackoffState Task) → waiting (enqueue Task fn b) ≡ waiting b ++ fn ∷ []
  unfolding enqueue
  waiting-enqueue fn b = map-append (λ e. e.1) b.queue ((b.generation, fn) ∷ [])

  -- What a guarded request settles, and what waits then, is what waited before and the request.
  guard-Keeps :
      (fn : Task) (ws : List Task) (out : Bool × List (Effect Task) × BackoffState Task)
      → map task_of out.1 ++ waiting out.2 ≡ ws
      → IsDrained out.2
      → (out.0 ≡ true) ⊎ (out.2.queue ≡ [])
      → (out.0 ≡ true → out.2.active ≡ true)
      → let out' = guard Task fn out in
        (map task_of out'.0 ++ waiting out'.1 ≡ ws ++ fn ∷ []) × IsDrained out'.1
  unfolding guard enqueue
  guard-Keeps fn ws (true, es, b) k d o a = (
    ap (◌++◌ (map task_of es)) (waiting-enqueue fn b)
        ∙ sym (append_assoc (map task_of es) (waiting b) (fn ∷ []))
        ∙ ap (λ xs. xs ++ fn ∷ []) k,
    inl (a refl),
  )
  guard-Keeps fn ws (false, es, b) k d (inl t) a = cc
  guard-Keeps fn ws (false, es, b) k d (inr q) a =
      let none_waits : waiting b ≡ [] = ap (map (λ e. e.1)) q in
      let settled : map task_of es ≡ ws =
        sym (append-nil (map task_of es)) ∙ ap (◌++◌ (map task_of es)) (sym none_waits) ∙ k in
      (
        ap (◌++◌ (map task_of (es ++ sent fn ∷ []))) none_waits
            ∙ append-nil (map task_of (es ++ sent fn ∷ []))
            ∙ map-append task_of es (sent fn ∷ [])
            ∙ ap (λ xs. xs ++ fn ∷ []) settled,
        inr q,
      )

  is_throttled_active :
      (now : ℕ) (b : BackoffState Task)
      → (is_throttled Task now b).0 ≡ true
      → (is_throttled Task now b).2.active ≡ true
  unfolding is_throttled
  is_throttled_active now b = elim (Bool-cases b.active) [
    | inl a ↦
        rw a (elim (Bool-cases (leb b.until now)) [
          | inl e ↦ rw e (λ h. cc)
          | inr e ↦ rw e (λ h. refl)
        ])
    | inr a ↦ rw a (λ h. cc)
  ]

  effects-append :
      (done es : List (Effect Task)) (b : BackoffState Task) (ws : List Task)
      → map task_of es ++ waiting b ≡ ws
      → map task_of (done ++ es) ++ waiting b ≡ map task_of done ++ ws
  effects-append done es b ws k =
      ap (λ xs. xs ++ waiting b) (map-append task_of done es)
      ∙ append_assoc (map task_of done) (map task_of es) (waiting b)
      ∙ ap (◌++◌ (map task_of done)) k

  abbrev Ordered : Run Task → Type 0
  Ordered r = InOrder r × IsDrained r.state

  request-Ordered :
      (parse_int : String → Option ℤ) (r : Run Task) (now : ℕ) (fn : Task)
      → Ordered r
      → Ordered (step Task parse_int r (request now fn))
  unfolding step with_backoff_guard
  request-Ordered parse_int r now fn (f, d) =
      let (k, d', o) = is_throttled-Keeps now r.state d in
      let out = is_throttled Task now r.state in
      let (k', d'') =
        guard-Keeps fn (waiting r.state) out k d' o (is_throttled_active now r.state) in
      (
        effects-append r.effects (guard Task fn out).0 (guard Task fn out).1 _ k'
            ∙ sym (append_assoc (map task_of r.effects) (waiting r.state) (fn ∷ []))
            ∙ ap (λ xs. xs ++ fn ∷ []) f,
        d'',
      )

  step-Ordered :
      (parse_int : String → Option ℤ) (r : Run Task) (e : Event Task)
      → Ordered r
      → Ordered (step Task parse_int r e)
  unfolding step handle_rate_limit_response
  step-Ordered parse_int r (request now fn) o = request-Ordered parse_int r now fn o
  step-Ordered parse_int r (rate_limited header now later) (f, d) = (f, inl refl)
  step-Ordered parse_int r (checked now) (f, d) =
      let (k, d', _) = is_throttled-Keeps now r.state d in
      let out = is_throttled Task now r.state in (effects-append r.effects out.1 out.2 _ k ∙ f, d')
  step-Ordered parse_int r (fires generation now) (f, d) =
      elim (Bool-cases (any (is_due Task generation now) r.timers)) [
        | inl e ↦
            let (k, d') = clear_backoff-Keeps generation r.state d in
            let out = clear_backoff Task (some generation) r.state in
            rw e (effects-append r.effects out.0 out.1 _ k ∙ f, d')
        | inr e ↦ rw e (f, d)
      ]

  steps-Ordered :
      (parse_int : String → Option ℤ) (r : Run Task) (es : List (Event Task))
      → Ordered r
      → Ordered (steps Task parse_int r es)
  unfolding steps
  steps-Ordered parse_int r [] o = o
  steps-Ordered parse_int r (e ∷ es) o =
      steps-Ordered parse_int (step Task parse_int r e) es (step-Ordered parse_int r e o)

  -- From the start on, whatever requests, rate limits, checks and firings of due timers come, and in
  -- whatever order, no request is lost, doubled or overtaken: the requests are, in the order in
  -- which they came, those that were sent or rejected and then those that wait.
  pub steps-InOrder :
      (parse_int : String → Option ℤ) (es : List (Event Task))
      → InOrder (steps Task parse_int (fresh_run Task) es)
  steps-InOrder parse_int es = (steps-Ordered parse_int (fresh_run Task) es (refl, inr refl)).0
