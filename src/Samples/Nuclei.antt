-- ===== src/Samples/Nuclei.antt =====
-- examples/task/main.go and examples/direct-job/main.go.
use rediver_sdk_go.Prelude.{[], ◌∷◌, elems, length}
use rediver_sdk_go.Errors.{nil}
use rediver_sdk_go.Job.Defs.{id}
use rediver_sdk_go.Job.Targets.{domains, services}
use rediver_sdk_go.Scanner.{Scanner, ScanFunc, new_scanner}
use rediver_sdk_go.Samples.{Surroundings, text, count}

module _ {S F O G : Type 0} (env : Surroundings S F) where
  -- The handlers of the two programs only log.
  unfoldable pub task_handler : ScanFunc S F O G
  unfolding services
  task_handler j s = (
    ([], nil),
    env.info "scanning services" (("count", count (length (elems (services j)))) ∷ []) s,
  )

  unfoldable pub direct_job_handler : ScanFunc S F O G
  unfolding domains id
  direct_job_handler j s = (
    ([], nil),
    env.info "scanning domains"
        (("count", count (length (elems (domains j)))) ∷ ("job_id", text (id j)) ∷ []) s,
  )

  unfoldable pub task_scanner : Scanner S F O G
  unfolding new_scanner task_handler
  task_scanner = new_scanner "nuclei" ("Subdomain" ∷ "Service" ∷ []) task_handler []

  unfoldable pub direct_job_scanner : Scanner S F O G
  unfolding new_scanner direct_job_handler
  direct_job_scanner = new_scanner "nuclei" ("Service" ∷ []) direct_job_handler []
