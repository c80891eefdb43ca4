-- ===== src/Examples/Retries.antt =====
-- The retry loop on a function that always fails.
use rediver_sdk_go.Prelude.{ℕ, ◌+◌, ◌≤◌, refl, ℤ, pos}
use rediver_sdk_go.Errors.{nil, network}
use rediver_sdk_go.Retry.{Surroundings, do_retry}
use rediver_sdk_go.Retry.Bounds.{rounds, Origin, do_retry-calls, do_retry-Origin}
use rediver_sdk_go.Examples.Values.{int_float, three_times}

-- The function fails and counts its calls.
abbrev failing : Surroundings ℕ ℤ
failing = record {
  call = λ n. (network "down", n + 1);
  done = λ n. nil;
  wait = λ d n. (nil, n);
  random = λ n. pos 0;
}

do_retry-calls_example : (do_retry int_float three_times failing 0).1 ≤ 0 + rounds three_times
do_retry-calls_example =
    do_retry-calls int_float three_times failing (λ n. n) (λ n. refl) (λ d n. refl) 0

do_retry-Origin_example :
    Origin three_times failing (rounds three_times) (do_retry int_float three_times failing 0)
do_retry-Origin_example = do_retry-Origin int_float three_times failing 0
