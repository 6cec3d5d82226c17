-- ===== src/Listener/Delivery.antt =====
-- Which events the listener of backend/tools/ContractEventListener.ts delivers, and how often.
use synapse_stellar.Prelude.{
  ℕ, ◌+◌, ◌≡◌, refl, sym, ap, ◌∙◌, inl, inr, Bool, Option, none, some, List, [], ◌∷◌, ◌++◌,
  append-nil, append_assoc, String, filter, ◌==◌, string_eq, filter-append, leb, Bool-cases,
  Option-cases,
}
use synapse_stellar.Prelude.Results.{Result, ok, err}
use synapse_stellar.Listener.{
  ContractEvent, Request, from_cursor, from_ledger, Response, Step, polls, stops, is_match, truthy,
  last_token, next_cursor, Listener, stop, started, promised, from_promise, request, deliver,
  failed, settled, received, asked, poll, step, steps,
}

-- Where the next request starts.
abbrev pub position : ℕ → Option String → Request
position n cursor = elim (truthy cursor) [ none ↦ from_ledger n | some c ↦ from_cursor c ]

position_unknown :
    (n : ℕ) (cursor : Option String) → truthy cursor ≡ none → position n cursor ≡ from_ledger n
position_unknown n cursor unknown =
    ap (λ o. elim o [ none ↦ from_ledger n | some d ↦ from_cursor d ]) unknown

truthy_again :
    (cursor : Option String) (c : String) → truthy cursor ≡ some c → truthy (some c) ≡ some c
truthy_again none c = λ h. cc
truthy_again (some d) c = elim (Bool-cases (d == "")) [
  | inl empty ↦ rw empty (λ h. cc)
  | inr full ↦ rw full (λ h. let same : d ≡ c = cc in rw (← same, full) refl)
]

position_known :
    (n : ℕ) (cursor : Option String) (c : String)
    → truthy cursor ≡ some c
    → position n cursor ≡ from_cursor c
position_known n cursor c known =
    ap (λ o. elim o [ none ↦ from_ledger n | some d ↦ from_cursor d ]) known

module _ (ahead : Request → List ContractEvent) where
  -- What the code relies on of a page, where `ahead` are the events, those to come included, that
  -- lie ahead of a request: a page is their beginning, and its last token, which is not empty, stands
  -- behind it; the cursor of an empty page passes over no event.
  abbrev pub Page : Request → List ContractEvent → Option String → Type 0
  Page req [] cursor = (c : String) → truthy cursor ≡ some c → ahead (from_cursor c) ≡ ahead req
  Page req (e ∷ es) cursor =
      (t : String) × (last_token (some e.paging_token) es ≡ some t)
      × (truthy (some t) ≡ some t)
      × (ahead req ≡ (e ∷ es) ++ ahead (from_cursor t))

  position-next_cursor :
      (n : ℕ) (before : Option String) (response : Response)
      → Page (position n before) response.events response.cursor
      → ahead (position n before)
        ≡ response.events ++ ahead (position n (next_cursor before response))
  unfolding next_cursor
  position-next_cursor n before response = go response.events response.cursor
    where
      go :
          (events : List ContractEvent) (cursor : Option String)
          → Page (position n before) events cursor
          → ahead (position n before)
            ≡ events
              ++ ahead
                  (position n (next_cursor before (record { events = events; cursor = cursor })))
      go [] cursor = elim (Option-cases (truthy cursor)) [
        | inl same ↦ rw (same, next_cursor) (λ h. refl)
        | inr (c, moved) ↦ λ h.
            let known = position_known n (some c) c (truthy_again cursor c moved) in
            rw (moved, next_cursor) (sym (ap ahead known ∙ h c moved))
      ]
      go (e ∷ es) cursor = λ (t, last, known, page).
          rw (last, next_cursor)
            (page ∙ ap (λ q. e ∷ es ++ ahead q) (sym (position_known n (some t) t known)))

module _ (Net E : Type 0) (get_latest_ledger : Net → Result E ℕ × Net)
    (get_events : Request → Net → Result E Response × Net) (on_event : ContractEvent → Option E)
    (event_types : List String) (max_reconnect_attempts poll_interval_ms : ℕ)
    (ahead : Request → List ContractEvent)
    (pages : (req : Request) (net : Net) (r : Response)
      → (get_events req net).0 ≡ ok r
      → Page ahead req r.events r.cursor)
    (calm : (event : ContractEvent) → on_event event ≡ none) (n : ℕ) where
  abbrev S : Type 0
  S =
      Listener Net E get_latest_ledger get_events on_event event_types max_reconnect_attempts
        poll_interval_ms

  abbrev run : S × Net → List Step → S × Net
  run =
      steps Net E get_latest_ledger get_events on_event event_types max_reconnect_attempts
        poll_interval_ms

  abbrev one : S × Net → Step → S × Net
  one =
      step Net E get_latest_ledger get_events on_event event_types max_reconnect_attempts
        poll_interval_ms

  abbrev wanted : List ContractEvent → List ContractEvent
  wanted = filter (is_match event_types)

  -- The matching events from ledger `n` on are those delivered and then those that lie ahead.
  abbrev pub InStep : Option (Result E ℕ) → Option String → List ContractEvent → Type 0
  InStep start cursor delivered =
      (start ≡ some (ok n))
      × (delivered ++ wanted (ahead (position n cursor)) ≡ wanted (ahead (from_ledger n)))

  abbrev pub Inv : S → Type 0
  Inv s = InStep s.start_ledger s.cursor s.delivered

  deliver_lem :
      (events delivered : List ContractEvent)
      → deliver Net E get_latest_ledger get_events on_event event_types max_reconnect_attempts
          poll_interval_ms events delivered
        ≡ (none, delivered ++ wanted events)
  unfolding deliver
  deliver_lem [] delivered = rw (append-nil delivered) refl
  deliver_lem (event ∷ rest) delivered = elim (Bool-cases (is_match event_types event)) [
    | inl wants ↦
        rw (wants, calm event)
          (deliver_lem rest (delivered ++ event ∷ [])
            ∙ ap (λ l. (none, l)) (append_assoc delivered (event ∷ []) (wanted rest)))
    | inr other ↦ rw other (deliver_lem rest delivered)
  ]

  failed-Inv :
      (e : E) (b : Bool) (s : S)
      → Inv s
      → Inv (
          failed Net E get_latest_ledger get_events on_event event_types max_reconnect_attempts
            poll_interval_ms e b s)
  unfolding failed
  failed-Inv e b s v = elim (Bool-cases (leb max_reconnect_attempts (s.reconnect_attempts + 1))) [
    | inl last ↦ rw last v
    | inr more ↦ rw more v
  ]

  started_lem :
      (s : S) (net : Net)
      → s.start_ledger ≡ some (ok n)
      → started Net E get_latest_ledger get_events on_event event_types max_reconnect_attempts
          poll_interval_ms s net
        ≡ (ok n, s, net)
  unfolding started promised
  started_lem s net h =
      ap
        (λ o.
          promised Net E get_latest_ledger get_events on_event event_types max_reconnect_attempts
            poll_interval_ms o s net)
        h

  request_lem :
      (s : S) (net : Net)
      → s.start_ledger ≡ some (ok n)
      → request Net E get_latest_ledger get_events on_event event_types max_reconnect_attempts
          poll_interval_ms s net
        ≡ (ok (position n s.cursor), s, net)
  unfolding request from_promise
  request_lem s net h = elim (Option-cases (truthy s.cursor)) [
    | inl missing ↦
        rw (missing, request, started_lem s net h)
          (ap (λ q. (ok q, s, net)) (sym (position_unknown n s.cursor missing)))
    | inr (c, known) ↦
        rw (known, request) (ap (λ q. (ok q, s, net)) (sym (position_known n s.cursor c known)))
  ]

  received-Inv :
      (b : Bool) (s : S) (out : Result E Response × Net)
      → ((r : Response) → out.0 ≡ ok r → Page ahead (position n s.cursor) r.events r.cursor)
      → Inv s
      → Inv
          (received Net E get_latest_ledger get_events on_event event_types max_reconnect_attempts
            poll_interval_ms b s out).0
  unfolding received settled
  received-Inv b s (err e, net) page v = failed-Inv e b s v
  received-Inv b s (ok r, net) page (start, v) = rw (deliver_lem r.events s.delivered) (
    start,
    append_assoc s.delivered (wanted r.events)
          (wanted (ahead (position n (next_cursor s.cursor r))))
        ∙ ap (λ l. s.delivered ++ l)
            (sym (
              filter-append (is_match event_types) r.events
                (ahead (position n (next_cursor s.cursor r)))))
        ∙ ap (λ l. s.delivered ++ wanted l)
            (sym (position-next_cursor ahead n s.cursor r (page r refl)))
        ∙ v,
  )

  poll-Inv :
      (b : Bool) (s : S) (net : Net)
      → Inv s
      → Inv
          (poll Net E get_latest_ledger get_events on_event event_types max_reconnect_attempts
            poll_interval_ms b s net).0
  unfolding poll asked
  poll-Inv b s net v = elim (Bool-cases s.is_stopped) [
    | inl stopped ↦ rw stopped v
    | inr going ↦ simp (going) (
        rw (request_lem s net (v.0)) (
          received-Inv b s (get_events (position n s.cursor) net) (pages (position n s.cursor) net)
            v))
  ]

  step-Inv : (e : Step) (s : S) (net : Net) → Inv s → Inv (one (s, net) e).0
  unfolding step stop
  step-Inv stops s net v = v
  step-Inv (polls b) s net v = elim (Option-cases s.timer) [
    | inl idle ↦ rw idle v
    | inr (delay, due) ↦ rw (due, step) (poll-Inv b (record s { timer = none }) net v)
  ]

  -- No event is lost and none delivered twice: after any sequence of polls and stops, failed polls
  -- included, the events that `onEvent` was called with, followed by the matching ones that lie ahead
  -- of the next request, are the matching events from the first ledger on, in order. The pages of the
  -- server follow each other, `onEvent` does not throw, and the start ledger is known.
  pub steps-Inv : (es : List Step) (s : S) (net : Net) → Inv s → Inv (run (s, net) es).0
  unfolding steps
  steps-Inv [] s net v = v
  steps-Inv (e ∷ es) s net v =
      steps-Inv es (one (s, net) e).0 (one (s, net) e).1 (step-Inv e s net v)
