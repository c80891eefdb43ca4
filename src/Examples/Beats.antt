-- ===== src/Examples/Beats.antt =====
-- The job of the test data with two heartbeats before each call of its scan and after the report.
use rediver_sdk_go.Prelude.{ℕ, String, ◌≡◌, refl, true, List, ◌∷◌}
use rediver_sdk_go.Errors.{is_nil}
use rediver_sdk_go.Agent.Rpc.{Request, create_token, call_rpc, auth_header, str_optional}
use rediver_sdk_go.Agent.Reports.{reported}
use rediver_sdk_go.Agent.Bearer.{strays}
use rediver_sdk_go.Agent.Beating.{execute_beating}
use rediver_sdk_go.Agent.Beating.Reports.{execute_beating-reports}
use rediver_sdk_go.Examples.Values.{agent, server, tokens, start}

abbrev twice : List (Request ℕ String ℕ) → ℕ
twice history = 2

token_minted : is_nil (create_token server tokens "job-1" start).0.0 ≡ true
unfolding create_token call_rpc auth_header str_optional
token_minted = refl

execute_beating-reports_example :
    (reported (execute_beating agent twice "job-1" start).1
      ≡ is_nil (execute_beating agent twice "job-1" start).0 ∷ reported start)
    × (strays
          (create_token server tokens "job-1" start).0.1
          (execute_beating agent twice "job-1" start).1.history
        ≡ strays
            (create_token server tokens "job-1" start).0.1
            (create_token server tokens "job-1" start).1.history)
execute_beating-reports_example = execute_beating-reports agent twice "job-1" start token_minted
