-- ===== src/Exec.antt =====
-- utils/exec.go: Exec, which runs a command and passes the lines of its output to callbacks. The
-- package os/exec and bufio's scanner are the parameter `Process`.
pub mod InTurn
use rediver_sdk_go.Prelude.{
  Bool, true, false, ◌&&◌, not, is_some, String, is_empty, Option, none, some, List, [], ◌∷◌, ℤ,
  pos, negsuc, if◌then◌else◌,
}
use rediver_sdk_go.Errors.{Error, nil, wrapped, is_nil}

-- A callback that is not set is `none`.
pub record ExecOptions (S : Type 0) : Type 0 where
  pub work_dir : String
  pub on_stdout : Option (String → S → S)
  pub on_stderr : Option (String → S → S)

pub data ExecOption (S : Type 0) : Type 0 where
  with_work_dir : String → ExecOption S
  with_stdout : Option (String → S → S) → ExecOption S
  with_stderr : Option (String → S → S) → ExecOption S

-- The error of `cmd.Wait`, with the code of the *exec.ExitError that errors.As finds in it.
pub record Waited : Type 0 where
  pub err : Error
  pub exit_code : Option ℤ

-- A command that exec.CommandContext made, with its directory set: its methods, and the lines that
-- a bufio.Scanner reads from each pipe of it once it has started.
pub record Process (S : Type 0) : Type 0 where
  pub stdout_pipe : S → Error × S
  pub stderr_pipe : S → Error × S
  pub start : S → Error × S
  pub out_lines : S → List String
  pub err_lines : S → List String
  pub wait : S → Waited × S

pub data Stream : Type 0 where
  stdout stderr : Stream

-- The lines that a goroutine of `streamOutput` has before it; `none` where it has sent on `done`.
pub record Readers : Type 0 where
  pub out : Option (List String)
  pub errs : Option (List String)

abbrev pub are_done : Readers → Bool
are_done r = not (is_some r.out) && not (is_some r.errs)

abbrev pub opened : List String → List String → Readers
opened out errs = record { out = some out; errs = some errs }

unfoldable pub exit : Waited → ℤ × Error
exit w =
    if is_nil w.err
    then (pos 0, nil)
    else elim w.exit_code [ some code ↦ (code, w.err) | none ↦ (negsuc 0, w.err) ]

module _ {S : Type 0} where
  unfoldable pub apply_exec_option : ExecOption S → ExecOptions S → ExecOptions S
  apply_exec_option (with_work_dir dir) o = record o { work_dir = dir }
  apply_exec_option (with_stdout handler) o = record o { on_stdout = handler }
  apply_exec_option (with_stderr handler) o = record o { on_stderr = handler }

  unfoldable pub apply_exec_options : List (ExecOption S) → ExecOptions S → ExecOptions S
  unfolding apply_exec_option
  apply_exec_options [] o = o
  apply_exec_options (x ∷ xs) o = apply_exec_options xs (apply_exec_option x o)

  abbrev pub no_options : ExecOptions S
  no_options = record { work_dir = ""; on_stdout = none; on_stderr = none }

  unfoldable pub call_back : Option (String → S → S) → String → S → S
  call_back none line s = s
  call_back (some f) line s = f line s

  -- One turn of `streamOutput`: a line and its callback, or the deferred send on `done`.
  unfoldable pub advance :
      Option (String → S → S) → Option (List String) → S → Option (List String) × S
  unfolding call_back
  advance callback none s = (none, s)
  advance callback (some []) s = (none, s)
  advance callback (some (line ∷ lines)) s = (some lines, call_back callback line s)

  unfoldable pub stream_turn : ExecOptions S → Stream → Readers × S → Readers × S
  unfolding advance
  stream_turn o stdout (r, s) =
      let (out, s') = advance o.on_stdout r.out s in (record r { out = out }, s')
  stream_turn o stderr (r, s) =
      let (errs, s') = advance o.on_stderr r.errs s in (record r { errs = errs }, s')

  -- Both goroutines, in the order in which the schedule gives them their turns.
  unfoldable pub stream_output : ExecOptions S → List Stream → Readers × S → Readers × S
  unfolding stream_turn
  stream_output o [] v = v
  stream_output o (t ∷ ts) v = stream_output o ts (stream_turn o t v)

  -- The part of `Exec` up to the start of the command.
  unfoldable pub open_and_start : Process S → S → Error × S
  open_and_start p s =
      let (e, s') = p.stdout_pipe s in
      let (e', s'') = p.stderr_pipe s' in
      let (e'', s''') = p.start s'' in
      if is_nil e
      then if is_nil e'
        then if is_nil e'' then (nil, s''') else (wrapped "start command" e'', s''')
        else (wrapped "stderr pipe" e', s'')
      else (wrapped "stdout pipe" e, s')

  -- `cmd.Dir`, which is empty where it is not set.
  unfoldable pub directory : ExecOptions S → String
  directory o = if is_empty o.work_dir then "" else o.work_dir

  -- The part of `Exec` after the start; `none` where the schedule ends before both goroutines have
  -- sent on `done`, which `Exec` waits for.
  unfoldable pub stream_and_wait :
      List Stream → ExecOptions S → Process S → S → Option ((ℤ × Error) × S)
  unfolding stream_output exit
  stream_and_wait schedule o p s =
      let (readers, s') = stream_output o schedule (opened (p.out_lines s) (p.err_lines s), s) in
      let (w, s'') = p.wait s' in if are_done readers then some (exit w, s'') else none

  -- `Exec` under a schedule of its goroutines. `command` is exec.CommandContext with the directory.
  unfoldable pub exec :
      List Stream
      → (command : (dir name : String) → List String → Process S) → (name : String) → List String
      → List (ExecOption S)
      → S
      → Option ((ℤ × Error) × S)
  exec schedule command name args options s =
      let o = apply_exec_options options no_options in
      let p = command (directory o) name args in
      let (e, s') = open_and_start p s in
      let r = stream_and_wait schedule o p s' in if is_nil e then r else some ((negsuc 0, e), s')
