-- ===== src/Execution/Phase.antt =====
-- tako_vm/execution/worker.py: parse_phase_file, the reading of what the entrypoint wrote about the
-- phases of a run, and the pruning of directories.
use tako_vm.Prelude.{
  ℕ, suc, zero, ◌+◌, ◌≤◌, Option, none, some, Bool, true, false, not, ◌&&◌, ◌||◌, List, [], ◌∷◌,
  ◌≡◌, refl, leb, ltb, if◌then◌else◌, or_else, ◌>>=◌, arith, inl, inr, Bool-cases,
}
use tako_vm.Models.{ℤ, pos, negsuc}
use tako_vm.Security.{Text, is_empty, same_text}
use tako_vm.Texts.{codes, strip, split, split_once, is_one_of, lower, parse_int, starts_with}
pub mod Trust

-- A path of a phase file: a symbolic link, nothing, or a file with the text that read_text gives,
-- which is none for an error.
pub data PhaseFile : Type 0 where
  symlink absent : PhaseFile
  content : Option Text → PhaseFile

-- The first candidate that exists and is no link; `meta` is none without a control directory.
abbrev pub readable : PhaseFile → Option (Option Text)
readable symlink = none
readable absent = none
readable (content t) = some t

abbrev pub meta_text : Option PhaseFile → Option (Option Text)
meta_text none = none
meta_text (some f) = readable f

-- The value of a line for a key, and that of the last line that has one.
unfoldable pub line_value : Text → Text → Option Text
unfolding split_once strip same_text
line_value key line = elim (split_once 61 line) [
  | none ↦ none
  | some (k, v) ↦ if same_text (strip k) key then some (strip v) else none
]

unfoldable pub value_of : Text → List Text → Option Text
unfolding line_value
value_of key [] = none
value_of key (line ∷ lines) = or_else (value_of key lines) (line_value key line)

-- A field of milliseconds: absent or empty, or a number from 0 to a day; `none` for an error.
abbrev pub within_day : Option ℤ → Option (Option ℕ)
within_day none = none
within_day (some (pos n)) = if leb n 86400000 then some (some n) else none
within_day (some (negsuc n)) = none

unfoldable pub milliseconds : Option Text → Option (Option ℕ)
unfolding parse_int
milliseconds none = some none
milliseconds (some t) = if is_empty t then some none else within_day (parse_int t)

-- ExecutionTiming as the parser leaves it: the phase of a failure is taken over unchecked.
pub record PhaseTiming : Type 0 where
  pub startup_ms : Option ℕ
  pub dep_install_ms : Option ℕ
  pub execution_ms : Option ℕ
  pub total_ms : Option ℕ
  pub phase_at_exit : Option Text
  pub dep_install_started : Bool

abbrev pub is_text : Text → Option Text → Bool
unfolding same_text
is_text t none = false
is_text t (some s) = same_text s t

abbrev known_phase : Option Text → Option Text
unfolding is_one_of codes
known_phase none = none
known_phase (some p) =
    if is_one_of p (codes "startup" ∷ codes "execution" ∷ codes "completed" ∷ codes "failed" ∷ [])
    then some p
    else none

abbrev failed_phase : Option Text → Option Text → Option Text
failed_phase none known = known
failed_phase (some p) known = if is_empty p then known else some p

unfoldable pub exit_phase_of : List Text → Option Text
unfolding codes value_of same_text is_one_of
exit_phase_of lines =
    let known = known_phase (value_of (codes "phase") lines) in
    if is_text (codes "failed") (value_of (codes "phase") lines)
    then failed_phase (value_of (codes "failed_phase") lines) known
    else known

abbrev pub is_started : Option Text → Bool
unfolding codes lower same_text
is_started none = false
is_started (some t) = same_text (lower t) (codes "true")

unfoldable pub parse_lines : List Text → Option PhaseTiming
unfolding milliseconds value_of codes exit_phase_of lower same_text
parse_lines lines = do
  startup_ms ← milliseconds (value_of (codes "startup_ms") lines)
  dep_install_ms ← milliseconds (value_of (codes "dep_install_ms") lines)
  execution_ms ← milliseconds (value_of (codes "execution_ms") lines)
  total_ms ← milliseconds (value_of (codes "total_ms") lines)
  some (record {
    startup_ms = startup_ms;
    dep_install_ms = dep_install_ms;
    execution_ms = execution_ms;
    total_ms = total_ms;
    phase_at_exit = exit_phase_of lines;
    dep_install_started = is_started (value_of (codes "dep_install_started") lines);
  })

unfoldable pub parse_content : Text → Option PhaseTiming
unfolding split strip parse_lines
parse_content t = parse_lines (split 10 (strip t))

unfoldable pub parse_phase_file : Option PhaseFile → PhaseFile → Option PhaseTiming
unfolding parse_content
parse_phase_file meta output = do
  text ← or_else (meta_text meta) (readable output)
  t ← text
  parse_content t

-- An entry of a directory; `failing` is an OSError while it is looked at.
pub record Entry : Type 0 where
  pub name : Text
  pub is_symlink : Bool
  pub is_dir : Bool
  pub mtime : ℕ
  pub failing : Bool

-- `mtime < now - max_age`, with the age added on the other side.
abbrev pub is_stale : ℕ → ℕ → Entry → Bool
is_stale now max_age e =
    not e.failing && not e.is_symlink && e.is_dir && ltb (e.mtime + max_age) now

unfoldable pub removed : (Entry → Bool) → List Entry → List Text
removed test [] = []
removed test (e ∷ es) = let rest = removed test es in if test e then e.name ∷ rest else rest

-- prune_stale_workspaces: the directories that it removes; `none` where the root is no directory.
unfoldable pub prune_stale_workspaces : ℕ → ℕ → Option (List Entry) → List Text
unfolding removed starts_with codes
prune_stale_workspaces now max_age none = []
prune_stale_workspaces now max_age (some es) =
    removed
      (λ e.
        (starts_with (codes "job-") e.name || starts_with (codes "sandbox-") e.name)
        && is_stale now max_age e)
      es

-- prune_old_run_dirs, with the seconds of its days.
unfoldable pub prune_old_run_dirs : ℕ → ℕ → Option (List Entry) → List Text
unfolding removed
prune_old_run_dirs now seconds none = []
prune_old_run_dirs now seconds (some es) = removed (is_stale now seconds) es
