-- ===== src/Examples/Jobs.antt =====
-- A job with an artifact, executed against the server and the system of the test data.
use rediver_sdk_go.Prelude.{
  ℕ, ℤ, ◌+◌, suc, pos, ◌≡◌, refl, true, false, none, List, [], ◌∷◌, if◌then◌else◌, All, length,
  concat,
}
use rediver_sdk_go.Errors.{nil, is_nil, network}
use rediver_sdk_go.Retry.{second, do_retry, new_retrier}
use rediver_sdk_go.Import.{retried, for_batches}
use rediver_sdk_go.Import.Batches.{batches, send_all, IsBatch, for_batches_lem}
use rediver_sdk_go.Agent.Rpc.{create_token, call_rpc, auth_header, str_optional, push, push_domains}
use rediver_sdk_go.Agent.Execute.{import_results, execute_job, job_detail, fetch_detail, job_plane}
use rediver_sdk_go.Agent.Reports.{reports, reported, execute_job-reports}
use rediver_sdk_go.Agent.Once.{retries_never}
use rediver_sdk_go.Agent.Poll.{failed_polls, schedule, failed_polls_lem}
use rediver_sdk_go.Agent.Poll.Loops.{poll_loop, dispatch_loop, given, taken, given-taken, Round}
use rediver_sdk_go.Agent.Session.{start_and_run_once, register_request}
use rediver_sdk_go.Agent.Delivery.{pushed}
use rediver_sdk_go.Agent.Delivery.Results.{add_results, import_results-pushed}
use rediver_sdk_go.Agent.Panics.{
  PanicFunc, execute_and_panic, with_token_and_panic, run_and_panic, prepare_and_panic,
  scan_and_panic,
}
use rediver_sdk_go.Job.Defs.{new_job}
use rediver_sdk_go.Job.Repository.{repository}
use rediver_sdk_go.Agent.Prepare.{prepare_repository}
use rediver_sdk_go.Agent.Panics.Abandoned.{beats, after_ticks, execute_and_panic-abandons}
use rediver_sdk_go.Agent.Session.Task.{ReportsResult, start_and_run_once-ReportsResult}
use rediver_sdk_go.Examples.Values.{agent, server, tokens, start, structs, one_domain}

execute_job-reports_example : reported (execute_job agent "job-1" start).1 ≡ (
    if is_nil (create_token server tokens "job-1" start).0.0
    then is_nil (execute_job agent "job-1" start).0 ∷ []
    else [])
unfolding reports
execute_job-reports_example = execute_job-reports agent "job-1" start

token_minted : is_nil (create_token server tokens "job-1" start).0.0 ≡ true
unfolding create_token call_rpc auth_header str_optional
token_minted = refl

retries_never_example :
    (job_detail agent "jwt" start ≡ fetch_detail agent "jwt" (start, none))
    × (retried agent.float agent.retry_policy
          (job_plane agent "jwt")
          (push server tokens "jwt" "push assets" (push_domains []))
          start
        ≡ (push server tokens "jwt" "push assets" (push_domains []) start).1)
retries_never_example = retries_never agent "jwt" "push assets" (push_domains []) start refl

failed_polls_lem_example : failed_polls (network "a" ∷ network "b" ∷ []) 0 second ≡ schedule 2 0
failed_polls_lem_example = failed_polls_lem (network "a" ∷ network "b" ∷ []) 0 (refl, (refl, tt))

abbrev three_numbers : List ℕ
three_numbers = 7 ∷ 8 ∷ 9 ∷ []

abbrev note_size : List ℕ → List ℕ → List ℕ
note_size b sizes = length b ∷ sizes

for_batches_lem_example :
    (for_batches note_size 3 0 three_numbers [] ≡ send_all note_size (batches 3 0 three_numbers) [])
    × (concat (batches 3 0 three_numbers) ≡ three_numbers)
    × All IsBatch (batches 3 0 three_numbers)
for_batches_lem_example = for_batches_lem note_size three_numbers []

-- A poll that finds a job, one that finds none, and the end of the context.
abbrev three_rounds : List Round
three_rounds =
    record { ended = false; active = pos 0; reply = (nil, "job-1", "sast"); slept = true }
    ∷ record { ended = false; active = pos 1; reply = (nil, "", ""); slept = true }
    ∷ record { ended = true; active = pos 0; reply = (nil, "", ""); slept = true }
    ∷ []

given-taken_example :
    (given (poll_loop (pos 2) second second three_rounds)
      ≡ taken (poll_loop (pos 2) second second three_rounds))
    × (given (dispatch_loop second second three_rounds)
        ≡ taken (dispatch_loop second second three_rounds))
given-taken_example = given-taken (pos 2) second second three_rounds

-- A handler that emits a result and panics.
abbrev faulty : PanicFunc ℕ ℤ ℕ ℕ
faulty j s = ((one_domain ∷ [], "index out of range"), suc s)

execute_and_panic-abandons_example :
    (is_nil (execute_and_panic agent faulty "job-1" start).0.0 ≡ false)
    × (reported (
          after_ticks agent faulty
            (create_token server tokens "job-1" start).0.1
            3
            (execute_and_panic agent faulty "job-1" start))
        ≡ (if (execute_and_panic agent faulty "job-1" start).0.1
            then reported start
            else false ∷ reported start))
    × (beats
          (after_ticks agent faulty
            (create_token server tokens "job-1" start).0.1
            3
            (execute_and_panic agent faulty "job-1" start)).history
        ≡ (if (execute_and_panic agent faulty "job-1" start).0.1 then 3 else 0)
          + beats (execute_and_panic agent faulty "job-1" start).1.history)
execute_and_panic-abandons_example =
    execute_and_panic-abandons agent faulty "job-1" start 3 token_minted

goes_on_beating : (execute_and_panic agent faulty "job-1" start).0.1 ≡ true
unfolding execute_and_panic create_token with_token_and_panic job_detail do_retry new_retrier
    run_and_panic repository new_job prepare_and_panic prepare_repository scan_and_panic
goes_on_beating = refl

start_and_run_once-ReportsResult_example :
    ReportsResult start
      (start_and_run_once agent structs (register_request "host" "192.0.2.7" "2.1.0") "job-1" start)
start_and_run_once-ReportsResult_example =
    start_and_run_once-ReportsResult agent structs (register_request "host" "192.0.2.7" "2.1.0")
      "job-1" start refl

import_results-pushed_example :
    pushed (import_results agent "jwt" "c0ffee" (one_domain ∷ one_domain ∷ []) start).history
    ≡ add_results agent "jwt" "c0ffee" (one_domain ∷ one_domain ∷ []) (pushed start.history)
import_results-pushed_example =
    import_results-pushed agent "jwt" "c0ffee" (one_domain ∷ one_domain ∷ []) start (λ rpc. refl)
      refl
