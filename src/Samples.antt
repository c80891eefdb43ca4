-- ===== src/Samples.antt =====
-- examples/: the sample scanners, whose handlers run under a context that may end and write to the
-- logger of the job. The environment file and the signals of their main functions are left out.
pub mod Probe
pub mod Subdomains
pub mod Vulnerabilities
pub mod Nuclei
pub mod AllOrNothing
pub mod EndToEnd
pub mod Programs
use rediver_sdk_go.Prelude.{ℕ, Bool, String, List, [], ◌∷◌, ◌++◌, ℤ, if◌then◌else◌}
use rediver_sdk_go.Errors.{Error, nil, is_nil}
use rediver_sdk_go.Result.{Result}
use rediver_sdk_go.Param.Value.{Floats}

-- An argument of a logger's call.
pub data Shown : Type 0 where
  text : String → Shown
  number : ℤ → Shown
  count : ℕ → Shown
  flag : Bool → Shown

-- `done` is `ctx.Err()`; `sleep` is `time.Sleep` of so many milliseconds; `info` is `logger.Info`.
pub record Surroundings (S F : Type 0) : Type 0 where
  pub done : S → Error
  pub sleep : ℕ → S → S
  pub info : String → List (String × Shown) → S → S
  pub floats : Floats F

module _ {S F A B : Type 0} (env : Surroundings S F) where
  -- `for _, target := range targets`, where a round ends the handler once the context is done, and
  -- else runs `body`, which appends to what was found.
  unfoldable pub each_target :
      (A → List B → S → List B × S) → List A → List B → S → (List B × Error) × S
  each_target body [] found s = ((found, nil), s)
  each_target body (x ∷ xs) found s =
      let e = env.done s in
      let (found', s') = body x found s in
      let rest = each_target body xs found' s' in if is_nil e then rest else ((found, e), s)

module _ {S G B : Type 0} where
  -- `emit(result(found))` after the loop, or the return inside it. `finish` is the rest of the
  -- handler.
  unfoldable pub emit_found :
      (List B → Result G) → (List B → S → S) → (List B × Error) × S → (List (Result G) × Error) × S
  emit_found result finish ((found, e), s) =
      if is_nil e then ((result found ∷ [], nil), finish found s) else (([], e), s)
