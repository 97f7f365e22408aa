-- ===== src/Audit/Repository/Laws.antt =====
-- What a statement that inserts adds to the log.
use usp_cloud_native.Prelude.{
  append_nil, append_assoc, Bool, some, List, [], ◌∷◌, ◌++◌, Option-cases, arith, ◌≡◌, ap, ◌∙◌, inl,
  inr,
}
use usp_cloud_native.Audit.Event.{Event}
use usp_cloud_native.Audit.Repository.{Table, insert_row, insert_rows, write_many}

insert_row-rows : (t t' : Table) (e : Event) → insert_row t e ≡ some t' → t'.rows ≡ t.rows ++ e ∷ []
unfolding insert_row
insert_row-rows t t' e h = ground arith

insert_rows-rows :
    (t t' : Table) (events : List Event)
    → insert_rows t events ≡ some t'
    → t'.rows ≡ t.rows ++ events
unfolding insert_rows
insert_rows-rows t t' [] h = ground (arith, append_nil t.rows)
insert_rows-rows t t' (e ∷ events) h = elim (Option-cases (insert_row t e)) [
  | inl n ↦ absurd (ground (arith, n, h))
  | inr (t1, y) ↦
      insert_rows-rows t1 t' events (rw (y, insert_rows) at h)
      ∙ ap (λ l. l ++ events) (insert_row-rows t t1 e y)
      ∙ append_assoc t.rows (e ∷ []) events
]

pub write_many-rows :
    (lost : Bool) (t t' : Table) (events : List Event)
    → write_many lost t events ≡ some t'
    → t'.rows ≡ t.rows ++ events
unfolding write_many
write_many-rows lost t t' [] h = ground (arith, append_nil t.rows)
write_many-rows lost t t' (e ∷ events) h = ground (arith, insert_rows-rows t t' (e ∷ events))
