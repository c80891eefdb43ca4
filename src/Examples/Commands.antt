-- ===== src/Examples/Commands.antt =====
-- A command that writes two lines and exits with code 3.
use rediver_sdk_go.Prelude.{◌≡◌, refl, String, some, List, [], ◌∷◌, pos, arith}
use rediver_sdk_go.Errors.{nil, plain}
use rediver_sdk_go.Exec.{
  ExecOptions, ExecOption, with_stdout, with_stderr, Process, Stream, stdout, stderr,
  apply_exec_options, no_options, call_back, open_and_start, exec, exit,
}
use rediver_sdk_go.Exec.InTurn.{exec_in_turn, stream_in_turn, exec-exec_in_turn, Independent}

-- The lines that the callback of each stream was given.
abbrev Seen : Type 0
Seen = List String × List String

abbrev failing : Process Seen
failing = record {
  stdout_pipe = λ s. (nil, s);
  stderr_pipe = λ s. (nil, s);
  start = λ s. (nil, s);
  out_lines = λ s. "a" ∷ [];
  err_lines = λ s. "b" ∷ [];
  wait = λ s. (record { err = plain "exit status 3"; exit_code = some (pos 3) }, s);
}

abbrev command : String → String → List String → Process Seen
command dir name args = failing

abbrev see_stdout : String → Seen → Seen
see_stdout line (outs, errs) = (line ∷ outs, errs)

abbrev see_stderr : String → Seen → Seen
see_stderr line (outs, errs) = (outs, line ∷ errs)

abbrev options : List (ExecOption Seen)
options = with_stdout (some see_stdout) ∷ with_stderr (some see_stderr) ∷ []

abbrev seeing : ExecOptions Seen
seeing = record { work_dir = ""; on_stdout = some see_stdout; on_stderr = some see_stderr }

abbrev schedule : List Stream
schedule = stderr ∷ stdout ∷ stderr ∷ stdout ∷ []

options_are : seeing ≡ apply_exec_options options no_options
unfolding apply_exec_options
options_are = refl

seeing-Independent : Independent seeing
unfolding call_back
seeing-Independent line other s = refl

exec-exec_in_turn_example :
    exec schedule command "nuclei" [] options ([], []) ≡ some (exec_in_turn seeing failing ([], []))
exec-exec_in_turn_example =
    exec-exec_in_turn command schedule "nuclei" [] options ([], []) seeing failing options_are refl
      seeing-Independent (omega arith) (omega arith)

exit_code :
    exec_in_turn seeing failing ([], []) ≡ ((pos 3, plain "exit status 3"), ("a" ∷ [], "b" ∷ []))
unfolding exec_in_turn stream_in_turn open_and_start call_back exit
exit_code = refl
