-- ===== src/Exec/InTurn.antt =====
-- Exec against a run of it without goroutines: all lines of stdout, then all of stderr.
use rediver_sdk_go.Prelude.{
  ℕ, ◌+◌, ◌≤◌, ◌<◌, ◌≡◌, refl, sym, ap, ◌∙◌, Bool, true, false, String, Option, none, some, List,
  [], ◌∷◌, ℤ, negsuc, length, arith, if◌then◌else◌,
}
use rediver_sdk_go.Errors.{Error, is_nil}
use rediver_sdk_go.Exec.{
  ExecOptions, ExecOption, Process, Stream, stdout, stderr, Readers, exit, apply_exec_options,
  no_options, call_back, advance, stream_turn, stream_output, are_done, opened, directory,
  stream_and_wait, open_and_start, exec,
}

abbrev pub turns_of_stdout : List Stream → ℕ
turns_of_stdout [] = 0
turns_of_stdout (stdout ∷ ts) = 1 + turns_of_stdout ts
turns_of_stdout (stderr ∷ ts) = turns_of_stdout ts

abbrev pub turns_of_stderr : List Stream → ℕ
turns_of_stderr [] = 0
turns_of_stderr (stdout ∷ ts) = turns_of_stderr ts
turns_of_stderr (stderr ∷ ts) = 1 + turns_of_stderr ts

-- The turns that a goroutine still needs.
abbrev needs : Option (List String) → ℕ
needs none = 0
needs (some lines) = 1 + length lines

module _ {S : Type 0} where
  abbrev pub each_line : Option (String → S → S) → List String → S → S
  each_line callback [] s = s
  each_line callback (line ∷ lines) s = each_line callback lines (call_back callback line s)

  abbrev rest : Option (String → S → S) → Option (List String) → S → S
  rest callback none s = s
  rest callback (some lines) s = each_line callback lines s

  -- Calls of the one callback and of the other may change places.
  abbrev pub Independent : ExecOptions S → Type 0
  Independent o =
      (line other : String) (s : S)
      → call_back o.on_stdout line (call_back o.on_stderr other s)
        ≡ call_back o.on_stderr other (call_back o.on_stdout line s)

  unfoldable pub stream_in_turn : ExecOptions S → Process S → S → (ℤ × Error) × S
  stream_in_turn o p s =
      let (w, s') =
        p.wait (each_line o.on_stderr (p.err_lines s) (each_line o.on_stdout (p.out_lines s) s)) in
      (exit w, s')

  -- `Exec` with the lines of stdout before those of stderr.
  unfoldable pub exec_in_turn : ExecOptions S → Process S → S → (ℤ × Error) × S
  exec_in_turn o p s =
      let (e, s') = open_and_start p s in
      let r = stream_in_turn o p s' in if is_nil e then r else ((negsuc 0, e), s')

module _ {S : Type 0} where
  advance-rest :
      (callback : Option (String → S → S)) (lines : Option (List String)) (s : S)
      → rest callback (advance callback lines s).0 (advance callback lines s).1
        ≡ rest callback lines s
  unfolding advance
  advance-rest callback none s = refl
  advance-rest callback (some []) s = refl
  advance-rest callback (some (line ∷ lines)) s = refl

  -- What is left to do, stdout first.
  abbrev left : ExecOptions S → Readers × S → S
  left o (r, s) = rest o.on_stderr r.errs (rest o.on_stdout r.out s)

module _ {S : Type 0} (o : ExecOptions S) (independent : Independent o) where
  each_line-call_back :
      (lines : List String) (other : String) (s : S)
      → each_line o.on_stdout lines (call_back o.on_stderr other s)
        ≡ call_back o.on_stderr other (each_line o.on_stdout lines s)
  each_line-call_back [] other s = refl
  each_line-call_back (line ∷ lines) other s =
      ap (each_line o.on_stdout lines) (independent line other s)
      ∙ each_line-call_back lines other (call_back o.on_stdout line s)

  rest-call_back :
      (out : Option (List String)) (other : String) (s : S)
      → rest o.on_stdout out (call_back o.on_stderr other s)
        ≡ call_back o.on_stderr other (rest o.on_stdout out s)
  rest-call_back none other s = refl
  rest-call_back (some lines) other s = each_line-call_back lines other s

  advance_stderr :
      (out errs : Option (List String)) (s : S)
      → rest o.on_stderr
          (advance o.on_stderr errs s).0
          (rest o.on_stdout out (advance o.on_stderr errs s).1)
        ≡ rest o.on_stderr errs (rest o.on_stdout out s)
  unfolding advance
  advance_stderr out none s = refl
  advance_stderr out (some []) s = refl
  advance_stderr out (some (line ∷ lines)) s =
      ap (each_line o.on_stderr lines) (rest-call_back out line s)

  turn-left : (t : Stream) (v : Readers × S) → left o (stream_turn o t v) ≡ left o v
  unfolding stream_turn
  turn-left stdout (r, s) = ap (rest o.on_stderr r.errs) (advance-rest o.on_stdout r.out s)
  turn-left stderr (r, s) = advance_stderr r.out r.errs s

  output-left : (ts : List Stream) (v : Readers × S) → left o (stream_output o ts v) ≡ left o v
  unfolding stream_output
  output-left [] v = refl
  output-left (t ∷ ts) v = output-left ts (stream_turn o t v) ∙ turn-left t v

needs-none : (lines : Option (List String)) → needs lines ≤ 0 → lines ≡ none
needs-none none h = refl
needs-none (some lines) h = absurd (omega (arith, h))

module _ {S : Type 0} (o : ExecOptions S) where
  -- A turn takes one from what its goroutine needs.
  advance-needs :
      (callback : Option (String → S → S)) (lines : Option (List String)) (s : S) (n : ℕ)
      → needs lines ≤ 1 + n
      → needs (advance callback lines s).0 ≤ n
  unfolding advance
  advance-needs callback none s n h = omega arith
  advance-needs callback (some []) s n h = omega arith
  advance-needs callback (some (line ∷ lines)) s n h = omega (arith, h)

  output-done :
      (ts : List Stream) (v : Readers × S)
      → needs v.0.out ≤ turns_of_stdout ts
      → needs v.0.errs ≤ turns_of_stderr ts
      → are_done (stream_output o ts v).0 ≡ true
  unfolding stream_output stream_turn
  output-done [] (r, s) h h' = rw (needs-none r.out h) (rw (needs-none r.errs h') refl)
  output-done (stdout ∷ ts) (r, s) h h' =
      output-done ts _ (advance-needs o.on_stdout r.out s _ h) h'
  output-done (stderr ∷ ts) (r, s) h h' =
      output-done ts _ h (advance-needs o.on_stderr r.errs s _ h')

left_done :
    {S : Type 0} (o : ExecOptions S) (out errs : Option (List String)) (s : S)
    → are_done (record { out = out; errs = errs }) ≡ true
    → left o (record { out = out; errs = errs }, s) ≡ s
left_done o none none s h = refl
left_done o (some x) none s h = absurd (ground (arith, h))
left_done o none (some y) s h = absurd (ground (arith, h))
left_done o (some x) (some y) s h = absurd (ground (arith, h))

module _ {S : Type 0} (o : ExecOptions S) where
  -- Enough turns leave the state that the lines of stdout and then those of stderr leave.
  output_in_turn :
      (ts : List Stream) (out errs : List String) (s : S)
      → Independent o
      → length out < turns_of_stdout ts
      → length errs < turns_of_stderr ts
      → (are_done (stream_output o ts (opened out errs, s)).0 ≡ true)
        × ((stream_output o ts (opened out errs, s)).1
            ≡ each_line o.on_stderr errs (each_line o.on_stdout out s))
  output_in_turn ts out errs s i n m =
      let ended = output-done o ts (opened out errs, s) (omega arith) (omega arith) in
      (ended, sym (left_done o _ _ _ ended) ∙ output-left o i ts (opened out errs, s))

  stream_and_wait_lem :
      (ts : List Stream) (p : Process S) (s : S)
      → Independent o
      → length (p.out_lines s) < turns_of_stdout ts
      → length (p.err_lines s) < turns_of_stderr ts
      → stream_and_wait ts o p s ≡ some (stream_in_turn o p s)
  unfolding stream_and_wait stream_in_turn
  stream_and_wait_lem ts p s i n m =
      let (ended, last) = output_in_turn ts (p.out_lines s) (p.err_lines s) s i n m in
      rw ended (ap (λ v. some (exit (p.wait v).0, (p.wait v).1)) last)

if_some :
    {A : Type 0} (b : Bool) (o : Option A) (x y : A)
    → o ≡ some x
    → (if b then o else some y) ≡ some (if b then x else y)
if_some true o x y h = h
if_some false o x y h = refl

module _ {S : Type 0} (command : (dir name : String) → List String → Process S) where
  -- Where the callbacks are independent of each other, and the schedule has, for each stream, more
  -- turns than it has lines, Exec returns, with the exit code, the error and the state of the run
  -- that passes on all lines of stdout first and then those of stderr.
  pub exec-exec_in_turn :
      (schedule : List Stream) (name : String) (args : List String) (options : List (ExecOption S))
      (s : S) (o : ExecOptions S) (p : Process S)
      → o ≡ apply_exec_options options no_options
      → p ≡ command (directory o) name args
      → Independent o
      → length (p.out_lines (open_and_start p s).1) < turns_of_stdout schedule
      → length (p.err_lines (open_and_start p s).1) < turns_of_stderr schedule
      → exec schedule command name args options s ≡ some (exec_in_turn o p s)
  unfolding exec exec_in_turn
  exec-exec_in_turn schedule name args options s o p options_are command_is i n m =
      rw (sym options_are) (
        rw (sym command_is) (
          if_some (is_nil (open_and_start p s).0) _ _ _
            (stream_and_wait_lem o schedule p (open_and_start p s).1 i n m)))
