-- ===== src/Audit/Tests.antt =====
-- The audit at concrete inputs.
use usp_cloud_native.Prelude.{codes, str_eq, true, false, some, List, [], ◌∷◌, ◌≡◌, refl}
use usp_cloud_native.Access.Claims.{Claims}
use usp_cloud_native.Audit.Event.{Event}
use usp_cloud_native.Audit.Repository.{Table, row_ok, insert_row, insert_rows, write_many}
use usp_cloud_native.Audit.Service.{
  new_service, Step, captured, received, ticked, cancelled, drained, capture, build_event, flush,
  receive, tick, stop, shutdown, run,
}
use usp_cloud_native.Audit.Service.Laws.{Grows, captures, lost_in, run-Grows}

abbrev caller : Claims
caller = record {
  user_id = codes "user1";
  token_id = codes "t1";
  workspace_id = codes "ws1";
  scope = codes "read write";
  issuer = codes "apikey";
  audiences = [];
  issued_at = 0;
  expires_at = 100;
}

abbrev deletion : Event
deletion =
    build_event (record { id = codes "e1"; now = 50 }) (some caller) (codes "url:delete")
      (codes "url") (codes "01A") (codes "10.0.0.1") (codes "curl/8.0") (codes "r1") []

-- A log with one partition.
abbrev empty_log : Table
empty_log = record { rows = []; partitions = (0, 1000) ∷ [] }

abbrev late_deletion : Event
late_deletion = record deletion { id = codes "e2"; occurred_at = 2000 }

-- The event of a time without a partition takes its whole batch with it.
abbrev steps : List Step
steps =
    captured deletion
    ∷ captured late_deletion
    ∷ received false
    ∷ received false
    ∷ ticked false
    ∷ captured deletion
    ∷ cancelled false
    ∷ drained true
    ∷ []

deletion_stored :
    (run (captured deletion ∷ received false ∷ ticked false ∷ []) (new_service empty_log)).logs.rows
    ≡ deletion ∷ []
unfolding capture receive tick flush write_many insert_rows insert_row row_ok build_event str_eq
deletion_stored = refl

batch_dropped : (run steps (new_service empty_log)).dropped_events ≡ 2
unfolding capture receive tick stop shutdown flush write_many insert_rows insert_row row_ok
    build_event str_eq
batch_dropped = refl

shutdown_loses : lost_in steps (new_service empty_log) ≡ 1
unfolding capture receive tick stop shutdown flush write_many insert_rows insert_row row_ok
    build_event str_eq
shutdown_loses = refl

run-Grows_example :
    Grows
      (captures steps)
      (lost_in steps (new_service empty_log))
      (new_service empty_log)
      (run steps (new_service empty_log))
run-Grows_example = run-Grows steps (new_service empty_log)
