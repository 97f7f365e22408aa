-- ===== src/Audit/Service/Laws.antt =====
-- What becomes of the events that are captured.
use usp_cloud_native.Prelude.{
  count_rows-append, ℕ, ◌+◌, count_rows, leb, ltb, length, length-append, append_nil, append_assoc,
  Bool, true, false, if◌then◌else◌, Option, none, some, List, [], ◌∷◌, ◌++◌, Bool-cases, arith, ◌≡◌,
  refl, sym, ap, ◌∙◌, inl, inr,
}
use usp_cloud_native.Audit.Event.{Event}
use usp_cloud_native.Audit.Repository.{Table, write_many}
use usp_cloud_native.Audit.Repository.Laws.{write_many-rows}
use usp_cloud_native.Audit.Service.{
  State, Step, captured, received, ticked, cancelled, drained, capture, written, flush, flush_batch,
  take_event, receive, tick, stop, kept, shutdown, step, run,
}

-- How many events of a kind a state holds: in the log, in the channel and in the batch.
abbrev pub held : (Event → Bool) → State → ℕ
held p s = count_rows p s.logs.rows + (count_rows p s.channel + count_rows p s.batch)

abbrev pub captures : List Step → List Event
captures [] = []
captures (captured e ∷ steps) = e ∷ captures steps
captures (received lost ∷ steps) = captures steps
captures (ticked lost ∷ steps) = captures steps
captures (cancelled lost ∷ steps) = captures steps
captures (drained lost ∷ steps) = captures steps

-- The events of a shutdown whose write fails.
abbrev unwritten : List Event → Option Table → ℕ
unwritten events none = length events
unwritten events (some t) = 0

abbrev lost_at : Step → State → ℕ
lost_at (captured e) s = 0
lost_at (received lost) s = 0
lost_at (ticked lost) s = 0
lost_at (cancelled lost) s = 0
lost_at (drained lost) s = unwritten s.channel (write_many lost s.logs s.channel)

abbrev pub lost_in : List Step → State → ℕ
lost_in [] s = 0
lost_in (x ∷ steps) s = lost_at x s + lost_in steps (step x s)

-- From `s` to `s'`, while `events` are captured: rows are only added; some events are dropped, each of
-- which is counted; `l` are lost uncounted; and of each kind there are as many events in `s'`, among
-- the dropped and among the lost as there were in `s` and among the captured.
pub record Grows (events : List Event) (l : ℕ) (s s' : State) : Type 0 where
  pub extra : List Event
  pub dropped : List Event
  pub lost : List Event
  pub rows : s'.logs.rows ≡ s.logs.rows ++ extra
  pub counted : s'.dropped_events ≡ s.dropped_events + length dropped
  pub uncounted : length lost ≡ l
  pub balanced :
      (p : Event → Bool)
      → held p s' + (count_rows p dropped + count_rows p lost) ≡ held p s + count_rows p events

-- The log stays, and nothing is dropped or lost.
moved-Grows :
    (events : List Event) (s s' : State)
    → s'.logs ≡ s.logs
    → s'.dropped_events ≡ s.dropped_events
    → ((p : Event → Bool) → held p s' ≡ held p s + count_rows p events)
    → Grows events 0 s s'
moved-Grows events s s' same counted balanced = record {
  extra = [];
  dropped = [];
  lost = [];
  rows = ap (λ (t : Table). t.rows) same ∙ sym (append_nil s.logs.rows);
  counted = omega (arith, counted);
  uncounted = refl;
  balanced = λ p. omega (arith, balanced p);
}

Grows-refl : (s : State) → Grows [] 0 s s
Grows-refl s = moved-Grows [] s s refl refl (λ p. omega arith)

Grows-trans :
    (es es' : List Event) (l l' : ℕ) (s s' s'' : State)
    → Grows es l s s'
    → Grows es' l' s' s''
    → Grows (es ++ es') (l + l') s s''
Grows-trans es es' l l' s s' s'' g h = record {
  extra = g.extra ++ h.extra;
  dropped = g.dropped ++ h.dropped;
  lost = g.lost ++ h.lost;
  rows = h.rows ∙ ap (λ r. r ++ h.extra) g.rows ∙ append_assoc s.logs.rows g.extra h.extra;
  counted = omega (arith, g.counted, h.counted, length-append g.dropped h.dropped);
  uncounted = omega (arith, g.uncounted, h.uncounted, length-append g.lost h.lost);
  balanced = λ p. omega (
    arith,
    g.balanced p,
    h.balanced p,
    count_rows-append p g.dropped h.dropped,
    count_rows-append p g.lost h.lost,
    count_rows-append p es es',
  );
}

-- What is taken from a state is written or counted.
written-Grows :
    (events : List Event) (s s' : State) (o : Option Table)
    → ((t : Table) → o ≡ some t → t.rows ≡ s.logs.rows ++ events)
    → s'.logs ≡ s.logs
    → s'.dropped_events ≡ s.dropped_events
    → ((p : Event → Bool) → held p s' + count_rows p events ≡ held p s)
    → Grows [] 0 s (written events s' o)
written-Grows events s s' none wrote same counted fewer = record {
  extra = [];
  dropped = events;
  lost = [];
  rows = ap (λ (t : Table). t.rows) same ∙ sym (append_nil s.logs.rows);
  counted = omega (arith, counted);
  uncounted = refl;
  balanced = λ p. omega (arith, fewer p);
}
written-Grows events s s' (some t) wrote same counted fewer = record {
  extra = events;
  dropped = [];
  lost = [];
  rows = wrote t refl;
  counted = omega (arith, counted);
  uncounted = refl;
  balanced = λ p. omega (
    arith,
    fewer p,
    ap (count_rows p) (wrote t refl),
    count_rows-append p s.logs.rows events,
    ap (λ (t : Table). count_rows p t.rows) same,
  );
}

flush-Grows :
    (lost : Bool) (events : List Event) (s s' : State)
    → s'.logs ≡ s.logs
    → s'.dropped_events ≡ s.dropped_events
    → ((p : Event → Bool) → held p s' + count_rows p events ≡ held p s)
    → Grows [] 0 s (flush lost events s')
unfolding flush
flush-Grows lost [] s s' same counted fewer =
    moved-Grows [] s s' same counted (λ p. omega (arith, fewer p))
flush-Grows lost (e ∷ events) s s' same counted fewer =
    written-Grows (e ∷ events) s s' (write_many lost s'.logs (e ∷ events))
      (λ t h.
        write_many-rows lost s'.logs t (e ∷ events) h
        ∙ ap (λ (t : Table). t.rows ++ e ∷ events) same)
      same counted fewer

flush_batch-Grows : (lost : Bool) (s : State) → Grows [] 0 s (flush_batch lost s)
flush_batch-Grows lost s =
    flush-Grows lost s.batch s (record s { batch = [] }) refl refl (λ p. omega arith)

capture-Grows : (e : Event) (s : State) → Grows (e ∷ []) 0 s (capture e s)
unfolding capture
capture-Grows e s = elim (Bool-cases (ltb (length s.channel) 2048)) [
  | inl y ↦ rw y (
      moved-Grows (e ∷ []) s (record s { channel = s.channel ++ e ∷ [] }) refl refl
        (λ p. omega (arith, count_rows-append p s.channel (e ∷ []))))
  | inr n ↦ rw n (record {
    extra = [];
    dropped = e ∷ [];
    lost = [];
    rows = sym (append_nil s.logs.rows);
    counted = omega arith;
    uncounted = refl;
    balanced = λ p. omega arith;
  })
]

take_event-Grows :
    (lost : Bool) (s : State) (channel : List Event)
    → s.channel ≡ channel
    → Grows [] 0 s (take_event lost s channel)
take_event-Grows lost s [] same = Grows-refl s
take_event-Grows lost s (e ∷ channel) same =
    let taken : State = record s { channel = channel; batch = s.batch ++ e ∷ [] } in
    let moved : Grows [] 0 s taken =
      moved-Grows [] s taken refl refl
        (λ p. omega (arith, ap (count_rows p) same, count_rows-append p s.batch (e ∷ []))) in
    elim (Bool-cases (leb 50 (length taken.batch))) [
      | inl y ↦ rw y (
          Grows-trans [] [] 0 0 s taken (flush_batch lost taken) moved
            (flush_batch-Grows lost taken))
      | inr n ↦ rw n moved
    ]

either-Grows :
    (b : Bool) (s s' s'' : State)
    → Grows [] 0 s s'
    → Grows [] 0 s s''
    → Grows [] 0 s (if b then s' else s'')
either-Grows true s s' s'' g h = g
either-Grows false s s' s'' g h = h

receive-Grows : (lost : Bool) (s : State) → Grows [] 0 s (receive lost s)
unfolding receive
receive-Grows lost s =
    either-Grows s.stopped s s (take_event lost s s.channel) (Grows-refl s)
      (take_event-Grows lost s s.channel refl)

tick-Grows : (lost : Bool) (s : State) → Grows [] 0 s (tick lost s)
unfolding tick
tick-Grows lost s =
    either-Grows s.stopped s s (flush_batch lost s) (Grows-refl s) (flush_batch-Grows lost s)

stop-Grows : (lost : Bool) (s : State) → Grows [] 0 s (stop lost s)
unfolding stop
stop-Grows lost s =
    let f = flush_batch-Grows lost s in
    either-Grows s.stopped s s (record (flush_batch lost s) { stopped = true }) (Grows-refl s)
      (record {
        extra = f.extra;
        dropped = f.dropped;
        lost = f.lost;
        rows = f.rows;
        counted = f.counted;
        uncounted = f.uncounted;
        balanced = f.balanced;
      })

kept-Grows :
    (s : State) (o : Option Table)
    → ((t : Table) → o ≡ some t → t.rows ≡ s.logs.rows ++ s.channel)
    → Grows [] (unwritten s.channel o) s (kept (record s { channel = [] }) o)
kept-Grows s none wrote = record {
  extra = [];
  dropped = [];
  lost = s.channel;
  rows = sym (append_nil s.logs.rows);
  counted = omega arith;
  uncounted = refl;
  balanced = λ p. omega arith;
}
kept-Grows s (some t) wrote = record {
  extra = s.channel;
  dropped = [];
  lost = [];
  rows = wrote t refl;
  counted = omega arith;
  uncounted = refl;
  balanced = λ p.
      omega (arith, ap (count_rows p) (wrote t refl), count_rows-append p s.logs.rows s.channel);
}

shutdown-Grows :
    (lost : Bool) (s : State)
    → Grows [] (unwritten s.channel (write_many lost s.logs s.channel)) s (shutdown lost s)
unfolding shutdown
shutdown-Grows lost s =
    kept-Grows s (write_many lost s.logs s.channel) (λ t. write_many-rows lost s.logs t s.channel)

step-Grows : (x : Step) (s : State) → Grows (captures (x ∷ [])) (lost_at x s) s (step x s)
step-Grows (captured e) s = capture-Grows e s
step-Grows (received lost) s = receive-Grows lost s
step-Grows (ticked lost) s = tick-Grows lost s
step-Grows (cancelled lost) s = stop-Grows lost s
step-Grows (drained lost) s = shutdown-Grows lost s

captures_step :
    (x : Step) (steps : List Step) → captures (x ∷ steps) ≡ captures (x ∷ []) ++ captures steps
captures_step (captured e) steps = refl
captures_step (received lost) steps = refl
captures_step (ticked lost) steps = refl
captures_step (cancelled lost) steps = refl
captures_step (drained lost) steps = refl

-- A run, however it interleaves captures with the steps of the drainer and a shutdown, adds rows at the
-- end of the log and changes none. Of each kind of event, there are as many in the log, the channel,
-- the batch, among the dropped and among the lost as there were at the start and among the captured:
-- each dropped event is counted, and the lost are those of the shutdowns whose write failed.
pub run-Grows :
    (steps : List Step) (s : State) → Grows (captures steps) (lost_in steps s) s (run steps s)
run-Grows [] s = Grows-refl s
run-Grows (x ∷ steps) s = rw (captures_step x steps) (
    Grows-trans (captures (x ∷ [])) (captures steps) (lost_at x s) (lost_in steps (step x s)) s
      (step x s) (run steps (step x s)) (step-Grows x s) (run-Grows steps (step x s)))
