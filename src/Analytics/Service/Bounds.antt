-- ===== src/Analytics/Service/Bounds.antt =====
-- How much a service holds at any time.
use usp_cloud_native.Prelude.{
  ◌≤◌, ◌<◌, ltb, leb, length, length-append, true, false, not, ◌&&◌, List, [], ◌∷◌, ◌++◌,
  Bool-cases, arith, ◌≡◌, refl, inl, inr,
}
use usp_cloud_native.Analytics.Event.{RedirectEvent}
use usp_cloud_native.Analytics.Service.{
  Outside, CaptureRequest, Flushing, State, Step, captured, received, ticked, cancelled, drained,
  build_event, publish, enqueue, capture, flush, flush_batch, take_event, receive, tick, stop,
  shutdown, step, run,
}
use usp_cloud_native.Analytics.Service.Laws.{flush-IsFlushed}

-- The channel is no longer than its capacity, the batch is shorter than what is flushed, and a drainer
-- that has returned leaves none.
pub record IsBounded (s : State) : Type 0 where
  pub channel : length s.channel ≤ 2048
  pub batch : length s.batch < 100
  pub finished : s.stopped ≡ true → s.batch ≡ []

flush_batch-IsBounded :
    (w : Flushing) (s : State) → length s.channel ≤ 2048 → IsBounded (flush_batch w s)
flush_batch-IsBounded w s h =
    let f = flush-IsFlushed w s.batch (record s { batch = [] }) in
    record { channel = rw f.channel h; batch = rw f.batch (omega arith); finished = λ e. f.batch }

take_event-IsBounded :
    (w : Flushing) (s : State) (channel : List RedirectEvent)
    → s.channel ≡ channel
    → s.stopped ≡ false
    → IsBounded s
    → IsBounded (take_event w s channel)
take_event-IsBounded w s [] e running b = b
take_event-IsBounded w s (x ∷ channel) e running b =
    let taken = record s { channel = channel; batch = s.batch ++ x ∷ [] } in
    let less : length channel ≤ 2048 = ground (arith, b.channel, e) in
    elim (Bool-cases (leb 100 (length taken.batch))) [
      | inl y ↦ rw y (flush_batch-IsBounded w taken less)
      | inr n ↦ rw n (record {
        channel = less;
        batch = ground (arith, n);
        finished = λ h. absurd (ground (arith, h, running));
      })
    ]

publish-IsBounded :
    (o : Outside) (e : RedirectEvent) (s : State) → IsBounded s → IsBounded (publish o e s)
publish-IsBounded o e s b = elim (Bool-cases (o.has_publisher && not e.is_bot)) [
  | inl y ↦ rw y (record { channel = b.channel; batch = b.batch; finished = b.finished })
  | inr n ↦ rw n b
]

enqueue-IsBounded : (e : RedirectEvent) (s : State) → IsBounded s → IsBounded (enqueue e s)
enqueue-IsBounded e s b = elim (Bool-cases (ltb (length s.channel) 2048)) [
  | inl y ↦ rw y (record {
    channel = ground (arith, y, length-append s.channel (e ∷ []));
    batch = b.batch;
    finished = b.finished;
  })
  | inr n ↦ rw n (record { channel = b.channel; batch = b.batch; finished = b.finished })
]

capture-IsBounded :
    (o : Outside) (req : CaptureRequest) (s : State) → IsBounded s → IsBounded (capture o req s)
unfolding capture
capture-IsBounded o req s b =
    let e = build_event o req in enqueue-IsBounded e (publish o e s) (publish-IsBounded o e s b)

receive-IsBounded : (w : Flushing) (s : State) → IsBounded s → IsBounded (receive w s)
unfolding receive
receive-IsBounded w s b = elim (Bool-cases s.stopped) [
  | inl y ↦ ground (arith, y, b)
  | inr n ↦ ground (arith, n, take_event-IsBounded w s s.channel refl n b)
]

tick-IsBounded : (w : Flushing) (s : State) → IsBounded s → IsBounded (tick w s)
unfolding tick
tick-IsBounded w s b = ground (arith, b, flush_batch-IsBounded w s b.channel)

stop-IsBounded : (w : Flushing) (s : State) → IsBounded s → IsBounded (stop w s)
unfolding stop
stop-IsBounded w s b =
    let c = flush_batch-IsBounded w s b.channel in
    let f = flush-IsFlushed w s.batch (record s { batch = [] }) in
    let d : IsBounded (record (flush_batch w s) { stopped = true }) = record {
      channel = c.channel;
      batch = c.batch;
      finished = λ e. f.batch;
    } in
    ground (arith, b, d)

shutdown-IsBounded : (w : Flushing) (s : State) → IsBounded s → IsBounded (shutdown w s)
unfolding shutdown
shutdown-IsBounded w s b =
    let f = flush-IsFlushed w s.channel (record s { channel = [] }) in
    let d : IsBounded (flush w s.channel (record s { channel = [] })) = record {
      channel = rw f.channel (omega arith);
      batch = rw f.batch b.batch;
      finished = λ e. rw f.batch (b.finished (rw f.stopped at e));
    } in
    ground (arith, b, d)

step-IsBounded : (x : Step) (s : State) → IsBounded s → IsBounded (step x s)
step-IsBounded (captured o req) s b = capture-IsBounded o req s b
step-IsBounded (received w) s b = receive-IsBounded w s b
step-IsBounded (ticked w) s b = tick-IsBounded w s b
step-IsBounded (cancelled w) s b = stop-IsBounded w s b
step-IsBounded (drained w) s b = shutdown-IsBounded w s b

-- From a state within the bounds every run stays within them: the channel has at most 2048 events, the
-- batch fewer than 100, and none once the drainer has returned.
pub run-IsBounded : (steps : List Step) (s : State) → IsBounded s → IsBounded (run steps s)
run-IsBounded [] s b = b
run-IsBounded (x ∷ steps) s b = run-IsBounded steps (step x s) (step-IsBounded x s b)
