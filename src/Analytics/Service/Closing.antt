-- ===== src/Analytics/Service/Closing.antt =====
-- What the end of a service leaves in the table.
use usp_cloud_native.Prelude.{any, true, List, [], ◌∷◌, All, arith, ◌≡◌, refl, ◌∙◌}
use usp_cloud_native.Urls.Repository as Urls
use usp_cloud_native.Analytics.Event.{RedirectEvent}
use usp_cloud_native.Analytics.Service.{
  Flushing, State, new_service, Step, cancelled, drained, same_key, stop, shutdown, run,
}
use usp_cloud_native.Analytics.Service.Laws.{flush-IsFlushed}
use usp_cloud_native.Analytics.Service.Losses.{
  Keeps-trans, stop-Keeps, shutdown-Keeps, run-Keeps, is_kept, captured_events, run-is_kept,
}
use usp_cloud_native.Analytics.Service.Bounds.{run-IsBounded}

-- The end of a service: the drainer is told to stop, and what remains is flushed.
abbrev pub closed : Flushing → Flushing → State → State
closed w w' s = shutdown w' (stop w s)

stop-stopped : (w : Flushing) (s : State) → (stop w s).stopped ≡ true
unfolding stop
stop-stopped w s = ground arith

shutdown-empty : (w : Flushing) (s : State) → s.stopped ≡ true → (shutdown w s).channel ≡ []
unfolding shutdown
shutdown-empty w s h =
    let f = flush-IsFlushed w s.channel (record s { channel = [] }) in ground (arith, h, f.channel)

shutdown-stopped : (w : Flushing) (s : State) → (shutdown w s).stopped ≡ s.stopped
unfolding shutdown
shutdown-stopped w s =
    let f = flush-IsFlushed w s.channel (record s { channel = [] }) in ground (arith, f.stopped)

All-map :
    (P Q : RedirectEvent → Type 0)
    → ((e : RedirectEvent) → P e → Q e)
    → (events : List RedirectEvent) → All P events
    → All Q events
All-map P Q f [] h = tt
All-map P Q f (e ∷ events) (p, h) = (f e p, All-map P Q f events h)

-- If the service was closed and no event was counted as dropped, the table has a row with the id and the
-- time of every event that a run captured, however the run interleaves captures with the drainer's
-- steps.
pub run-closed :
    (steps : List Step) (w w' : Flushing) (events : List RedirectEvent) (urls : Urls.Table)
    → (closed w w' (run steps (new_service events urls))).dropped_events ≡ 0
    → All
        (λ e.
          any (same_key e) (State.events (closed w w' (run steps (new_service events urls))))
          ≡ true)
        (captured_events steps)
run-closed steps w w' events urls h =
    let s = new_service events urls in
    let r = run steps s in
    let before = run-Keeps steps s in
    let after =
      Keeps-trans r (stop w r) (closed w w' r) (stop-Keeps w r) (shutdown-Keeps w' (stop w r)) in
    let bounded = run-IsBounded (cancelled w ∷ drained w' ∷ []) r (
      run-IsBounded steps s
        (record { channel = omega arith; batch = omega arith; finished = λ e. refl })) in
    let no_batch = bounded.finished (shutdown-stopped w' (stop w r) ∙ stop-stopped w r) in
    let no_channel = shutdown-empty w' (stop w r) (stop-stopped w r) in
    All-map (λ e. is_kept e r ≡ true) (λ e. any (same_key e) (State.events (closed w w' r)) ≡ true)
      (λ e k.
        let kept = after.keeps (omega (arith, before.grows, after.grows, h)) e k in
        ground (arith, (rw (no_batch, no_channel) at kept)))
      (captured_events steps) (run-is_kept steps s (omega (arith, before.grows, after.grows, h)))
