-- ===== src/Analytics/Service/Laws.antt =====
-- What becomes of the events that are captured.
use usp_cloud_native.Prelude.{
  ℕ, suc, ◌+◌, length, List, [], ◌∷◌, Option-cases, arith, ◌≡◌, refl, inl, inr,
}
use usp_cloud_native.Analytics.Event.{RedirectEvent}
use usp_cloud_native.Analytics.Service.{
  Flushing, State, Step, captured, received, ticked, cancelled, drained, write_many, flush,
}

-- How many events a state answers for.
abbrev pub accounted : State → ℕ
accounted s = s.dropped_events + (s.written_events + (length s.channel + length s.batch))

abbrev pub captures : List Step → ℕ
captures [] = 0
captures (captured o req ∷ steps) = suc (captures steps)
captures (received w ∷ steps) = captures steps
captures (ticked w ∷ steps) = captures steps
captures (cancelled w ∷ steps) = captures steps
captures (drained w ∷ steps) = captures steps

-- What a flush leaves alone, and what it adds to the counters.
pub record IsFlushed (events : List RedirectEvent) (s s' : State) : Type 0 where
  pub channel : s'.channel ≡ s.channel
  pub batch : s'.batch ≡ s.batch
  pub stopped : s'.stopped ≡ s.stopped
  pub counted : accounted s' ≡ accounted s + length events

pub flush-IsFlushed :
    (w : Flushing) (events : List RedirectEvent) (s : State) → IsFlushed events s (flush w events s)
unfolding flush
flush-IsFlushed w [] s = record {
  channel = refl;
  batch = refl;
  stopped = refl;
  counted = omega arith;
}
flush-IsFlushed w (e ∷ events) s =
    elim (Option-cases (write_many w.write_lost s.events (e ∷ events))) [
      | inl n ↦
          rw n (record { channel = refl; batch = refl; stopped = refl; counted = omega arith })
      | inr (t, n) ↦
          rw n (record { channel = refl; batch = refl; stopped = refl; counted = omega arith })
    ]
