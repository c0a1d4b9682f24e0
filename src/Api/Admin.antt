-- ===== src/Api/Admin.antt =====
-- The routes of backend/src/modules/audit/audit-log.routes.js with their controllers.
use code_arena.Prelude.{Option, none, some, err, length}
use code_arena.Prelude.Text.{Text, codes}
use code_arena.Prelude.Error.{app_error}
use code_arena.Audit.{LogQuery, get_audit_logs}
use code_arena.Api.Guards.{
  Server, Backend, Moment, logs_of, queue_counts_of, workers_of, Outcome, answer, with_admin,
}

module _ (b : Backend) where
  abbrev pub get_audit_logs_handler : LogQuery → Server → Outcome
  get_audit_logs_handler q s =
      (answer 200 (logs_of (get_audit_logs b.newest_entries q s.catalog.audit)), s)

  abbrev pub get_queue_metrics_handler : Moment → Server → Outcome
  get_queue_metrics_handler m s = (
    elim m.queue_counts [
      | none ↦
          err (app_error (codes "Queue service unavailable") 503 (some (codes "QUEUE_UNAVAILABLE")))
      | some counts ↦ answer 200 (queue_counts_of counts)
    ],
    s,
  )

  abbrev pub get_workers_handler : Moment → Server → Outcome
  get_workers_handler m s = (answer 200 (workers_of (length m.workers) m.workers), s)

module _ (b : Backend) where
  -- `GET /admin/audit-logs`
  unfoldable pub get_audit_logs_route : Option Text → LogQuery → Server → Outcome
  get_audit_logs_route authorization q =
      with_admin b.crypto authorization (λ a. get_audit_logs_handler b q)

  -- `GET /admin/queue-metrics`
  unfoldable pub get_queue_metrics_route : Moment → Option Text → Server → Outcome
  get_queue_metrics_route m authorization =
      with_admin b.crypto authorization (λ a. get_queue_metrics_handler b m)

  -- `GET /admin/workers`
  unfoldable pub get_workers_route : Moment → Option Text → Server → Outcome
  get_workers_route m authorization =
      with_admin b.crypto authorization (λ a. get_workers_handler b m)
