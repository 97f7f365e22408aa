-- ===== src/Exports/UseCases/Laws.antt =====
-- Which jobs are accepted.
use usp_cloud_native.Prelude.{ℕ, Str, true, ok, arith, ◌≡◌, ◌↔◌}
use usp_cloud_native.Exports.Repository.{row_ok}
use usp_cloud_native.Exports.UseCases.{CreateCommand, validate, new_export}

-- With the default window the handler accepts a command exactly when the table's check constraints
-- accept its row, so that no command is accepted to fail at the constraints, and none is refused for
-- which they would hold.
pub validate_iff_row_ok :
    (cmd : CreateCommand) (id : Str) (now : ℕ)
    → (validate 0 cmd ≡ ok tt) ↔ (row_ok (new_export id now cmd) ≡ true)
unfolding validate row_ok
validate_iff_row_ok cmd id now = ground arith
