-- ===== src/Analytics/Service/Losses.antt =====
-- Which events reach the table.
use usp_cloud_native.Prelude.{
  ◌≤◌, str_eq_refl, ltb, leb, length, any, any-append, Bool, true, not, ◌&&◌, ◌||◌, List, [], ◌∷◌,
  ◌++◌, All, Bool-cases, arith, ◌≡◌, refl, inl, inr,
}
use usp_cloud_native.Analytics.Event.{RedirectEvent}
use usp_cloud_native.Analytics.Service.{
  Outside, CaptureRequest, Flushing, State, Step, captured, received, ticked, cancelled, drained,
  build_event, publish, enqueue, capture, same_key, flush, flush_batch, take_event, receive, tick,
  stop, shutdown, step, run,
}
use usp_cloud_native.Analytics.Service.Laws.{flush-IsFlushed}
use usp_cloud_native.Analytics.Service.Rows.{flush-IsSaved}

-- The events that a run captures.
abbrev pub captured_events : List Step → List RedirectEvent
captured_events [] = []
captured_events (captured o req ∷ steps) = build_event o req ∷ captured_events steps
captured_events (received w ∷ steps) = captured_events steps
captured_events (ticked w ∷ steps) = captured_events steps
captured_events (cancelled w ∷ steps) = captured_events steps
captured_events (drained w ∷ steps) = captured_events steps

-- An event has a row, or it waits in the batch or in the channel.
abbrev pub is_kept : RedirectEvent → State → Bool
is_kept e s = any (same_key e) s.events || (any (same_key e) s.batch || any (same_key e) s.channel)

-- From one state to a later one: the number of dropped events does not fall, and where it stays
-- nothing that was kept is lost.
pub record Keeps (s s' : State) : Type 0 where
  pub grows : s.dropped_events ≤ s'.dropped_events
  pub keeps :
      s'.dropped_events ≡ s.dropped_events
      → (e : RedirectEvent) → is_kept e s ≡ true
      → is_kept e s' ≡ true

Keeps-refl : (s : State) → Keeps s s
Keeps-refl s = record { grows = omega arith; keeps = λ h e k. k }

flush_batch-Keeps : (w : Flushing) (s : State) → Keeps s (flush_batch w s)
flush_batch-Keeps w s =
    let rest = record s { batch = [] } in
    let f = flush-IsFlushed w s.batch rest in
    let saved = flush-IsSaved w s.batch rest in
    record {
      grows = saved.grows;
      keeps = λ h e k. rw (saved.saves h e, f.batch, f.channel) (ground (arith, k));
    }

pub Keeps-trans : (s s' s'' : State) → Keeps s s' → Keeps s' s'' → Keeps s s''
Keeps-trans s s' s'' p q = record {
  grows = omega (arith, p.grows, q.grows);
  keeps = λ h e k.
      q.keeps (omega (arith, p.grows, q.grows, h)) e
        (p.keeps (omega (arith, p.grows, q.grows, h)) e k);
}

take_event-Keeps :
    (w : Flushing) (s : State) (channel : List RedirectEvent)
    → s.channel ≡ channel
    → Keeps s (take_event w s channel)
take_event-Keeps w s [] e = Keeps-refl s
take_event-Keeps w s (x ∷ channel) e =
    let taken = record s { channel = channel; batch = s.batch ++ x ∷ [] } in
    let same : Keeps s taken = record {
      grows = omega arith;
      keeps = λ h v k. ground (arith, (rw e at k), any-append (same_key v) s.batch (x ∷ []));
    } in
    elim (Bool-cases (leb 100 (length taken.batch))) [
      | inl y ↦ rw y (Keeps-trans s taken (flush_batch w taken) same (flush_batch-Keeps w taken))
      | inr n ↦ rw n same
    ]

publish-Keeps : (o : Outside) (e : RedirectEvent) (s : State) → Keeps s (publish o e s)
publish-Keeps o e s = elim (Bool-cases (o.has_publisher && not e.is_bot)) [
  | inl y ↦ rw y (record { grows = omega arith; keeps = λ h v k. k })
  | inr n ↦ rw n (Keeps-refl s)
]

enqueue-Keeps : (e : RedirectEvent) (s : State) → Keeps s (enqueue e s)
enqueue-Keeps e s = elim (Bool-cases (ltb (length s.channel) 2048)) [
  | inl y ↦ rw y (record {
    grows = omega arith;
    keeps = λ h v k. ground (arith, k, any-append (same_key v) s.channel (e ∷ []));
  })
  | inr n ↦ rw n (record { grows = omega arith; keeps = λ h v k. k })
]

same_key_refl : (e : RedirectEvent) → same_key e e ≡ true
same_key_refl e = ground (arith, str_eq_refl e.id)

enqueue-is_kept :
    (e : RedirectEvent) (s : State)
    → (enqueue e s).dropped_events ≡ s.dropped_events
    → is_kept e (enqueue e s) ≡ true
enqueue-is_kept e s h = elim (Bool-cases (ltb (length s.channel) 2048)) [
  | inl y ↦ rw y (ground (arith, same_key_refl e, any-append (same_key e) s.channel (e ∷ [])))
  | inr n ↦ absurd (omega (arith, (rw n at h)))
]

module _ (o : Outside) (req : CaptureRequest) (s : State) where
  capture-Keeps : Keeps s (capture o req s)
  unfolding capture
  capture-Keeps =
      let e = build_event o req in
      let p = publish o e s in
      Keeps-trans s p (enqueue e p) (publish-Keeps o e s) (enqueue-Keeps e p)

  capture-is_kept :
      (capture o req s).dropped_events ≡ s.dropped_events
      → is_kept (build_event o req) (capture o req s) ≡ true
  unfolding capture
  capture-is_kept h =
      let e = build_event o req in
      let p = publish o e s in
      enqueue-is_kept e p
        (omega (arith, Keeps.grows (publish-Keeps o e s), Keeps.grows (enqueue-Keeps e p), h))

receive-Keeps : (w : Flushing) (s : State) → Keeps s (receive w s)
unfolding receive
receive-Keeps w s = ground (arith, Keeps-refl s, take_event-Keeps w s s.channel refl)

tick-Keeps : (w : Flushing) (s : State) → Keeps s (tick w s)
unfolding tick
tick-Keeps w s = ground (arith, Keeps-refl s, flush_batch-Keeps w s)

pub stop-Keeps : (w : Flushing) (s : State) → Keeps s (stop w s)
unfolding stop
stop-Keeps w s =
    let f = flush_batch-Keeps w s in
    let d : Keeps s (record (flush_batch w s) { stopped = true }) = record {
      grows = f.grows;
      keeps = f.keeps;
    } in
    ground (arith, Keeps-refl s, d)

pub shutdown-Keeps : (w : Flushing) (s : State) → Keeps s (shutdown w s)
unfolding shutdown
shutdown-Keeps w s =
    let rest = record s { channel = [] } in
    let f = flush-IsFlushed w s.channel rest in
    let saved = flush-IsSaved w s.channel rest in
    let d : Keeps s (flush w s.channel rest) = record {
      grows = saved.grows;
      keeps = λ h e k. rw (saved.saves h e, f.batch, f.channel) (ground (arith, k));
    } in
    ground (arith, Keeps-refl s, d)

step-Keeps : (x : Step) (s : State) → Keeps s (step x s)
step-Keeps (captured o req) s = capture-Keeps o req s
step-Keeps (received w) s = receive-Keeps w s
step-Keeps (ticked w) s = tick-Keeps w s
step-Keeps (cancelled w) s = stop-Keeps w s
step-Keeps (drained w) s = shutdown-Keeps w s

pub run-Keeps : (steps : List Step) (s : State) → Keeps s (run steps s)
run-Keeps [] s = Keeps-refl s
run-Keeps (x ∷ steps) s =
    Keeps-trans s (step x s) (run steps (step x s)) (step-Keeps x s) (run-Keeps steps (step x s))

run_captured-is_kept :
    (o : Outside) (req : CaptureRequest) (steps : List Step) (s : State)
    → (run steps (capture o req s)).dropped_events ≡ s.dropped_events
    → is_kept (build_event o req) (run steps (capture o req s)) ≡ true
run_captured-is_kept o req steps s h =
    let first = capture-Keeps o req s in
    let later = run-Keeps steps (capture o req s) in
    later.keeps (omega (arith, first.grows, later.grows, h)) (build_event o req)
      (capture-is_kept o req s (omega (arith, first.grows, later.grows, h)))

pub run-is_kept :
    (steps : List Step) (s : State)
    → (run steps s).dropped_events ≡ s.dropped_events
    → All (λ e. is_kept e (run steps s) ≡ true) (captured_events steps)
run-is_kept [] s h = tt
run-is_kept (x ∷ steps) s h =
    let first = step-Keeps x s in
    let later = run-Keeps steps (step x s) in
    let rest = run-is_kept steps (step x s) (omega (arith, first.grows, later.grows, h)) in
    by_step x h rest
  where
    by_step :
        (x : Step)
        → (run steps (step x s)).dropped_events ≡ s.dropped_events
        → All (λ e. is_kept e (run steps (step x s)) ≡ true) (captured_events steps)
        → All (λ e. is_kept e (run steps (step x s)) ≡ true) (captured_events (x ∷ steps))
    by_step (captured o req) h rest = (run_captured-is_kept o req steps s h, rest)
    by_step (received w) h rest = rest
    by_step (ticked w) h rest = rest
    by_step (cancelled w) h rest = rest
    by_step (drained w) h rest = rest
