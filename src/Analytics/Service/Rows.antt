-- ===== src/Analytics/Service/Rows.antt =====
-- What a flush does to the table.
use usp_cloud_native.Prelude.{
  ◌≤◌, str_eq_iff, any, any-append, all, Bool, true, not, ◌||◌, some, List, [], ◌∷◌, Bool-cases,
  Option-cases, arith, ◌≡◌, refl, ◌∙◌, inl, inr,
}
use usp_cloud_native.Analytics.Event.{RedirectEvent}
use usp_cloud_native.Analytics.Service.{
  Flushing, State, event_ok, same_key, insert_event, insert_events, write_many, flush,
}

same_key_congruent : (e v x : RedirectEvent) → same_key e v ≡ true → same_key e x ≡ same_key v x
same_key_congruent e v x h =
    let id : v.id ≡ e.id = (str_eq_iff v.id e.id).0 (ground arith) in
    let time : v.occurred_at ≡ e.occurred_at = ground arith in rw (id, time) refl

any-congruent :
    (e v : RedirectEvent) (t : List RedirectEvent)
    → same_key e v ≡ true
    → any (same_key e) t ≡ any (same_key v) t
any-congruent e v [] h = refl
any-congruent e v (x ∷ t) h = rw (same_key_congruent e v x h, any-congruent e v t h) refl

any-insert_event :
    (e v : RedirectEvent) (t : List RedirectEvent)
    → any (same_key e) (insert_event t v) ≡ (any (same_key e) t || same_key e v)
any-insert_event e v t = elim (Bool-cases (any (same_key v) t)) [
  | inr n ↦ rw n (ground (arith, any-append (same_key e) t (v ∷ [])))
  | inl y ↦ elim (Bool-cases (same_key e v)) [
    | inr m ↦ ground (arith, y, m)
    | inl m ↦ ground (arith, y, m, any-congruent e v t m)
  ]
]

any-insert_events :
    (e : RedirectEvent) (t events : List RedirectEvent)
    → any (same_key e) (insert_events t events) ≡ (any (same_key e) t || any (same_key e) events)
any-insert_events e t [] = ground arith
any-insert_events e t (v ∷ events) =
    any-insert_events e (insert_event t v) events ∙ ground (arith, any-insert_event e v t)

write_many-eq-some :
    (lost : Bool) (t events t' : List RedirectEvent)
    → write_many lost t events ≡ some t'
    → t' ≡ insert_events t events
unfolding write_many
write_many-eq-some lost t [] t' h = ground arith
write_many-eq-some lost t (e ∷ events) t' h =
    elim (Bool-cases (lost || not (all event_ok (e ∷ events)))) [
      | inl y ↦ absurd (ground (arith, (rw y at h)))
      | inr n ↦ ground (arith, (rw n at h))
    ]

-- What a flush does to the rows.
pub record IsSaved (events : List RedirectEvent) (s s' : State) : Type 0 where
  pub grows : s.dropped_events ≤ s'.dropped_events
  pub saves :
      s'.dropped_events ≡ s.dropped_events
      → (e : RedirectEvent)
      → any (same_key e) s'.events ≡ (any (same_key e) s.events || any (same_key e) events)

pub flush-IsSaved :
    (w : Flushing) (events : List RedirectEvent) (s : State) → IsSaved events s (flush w events s)
unfolding flush
flush-IsSaved w [] s = record { grows = omega arith; saves = λ h e. ground arith }
flush-IsSaved w (v ∷ events) s =
    elim (Option-cases (write_many w.write_lost s.events (v ∷ events))) [
      | inl n ↦ rw n (record { grows = omega arith; saves = λ h e. absurd (omega arith) })
      | inr (t, n) ↦ rw n (record {
        grows = omega arith;
        saves = λ h e.
            rw (write_many-eq-some w.write_lost s.events (v ∷ events) t n)
              (any-insert_events e s.events (v ∷ events));
      })
    ]
