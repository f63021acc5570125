-- ===== src/Execution/Phase/Trust.antt =====
-- tako_vm/execution/worker.py: what a phase file can make the timing say.
use tako_vm.Prelude.{
  ℕ, ◌≤◌, Option, none, some, Bool, List, [], ◌∷◌, ◌≡◌, refl, ◌>>=◌, or_else, arith,
}
use mathlib.Core.Option.{some-injective}
use mathlib.Core.Path.{subst}
use tako_vm.Models.{ℤ, pos, negsuc}
use tako_vm.Security.{Text}
use tako_vm.Texts.{codes, parse_int, split, strip}
use tako_vm.Execution.Phase.{
  PhaseFile, content, PhaseTiming, within_day, milliseconds, parse_lines, parse_content,
  parse_phase_file, value_of, exit_phase_of, is_started, readable, meta_text,
}

-- A field that is absent or at most a day.
abbrev pub IsWithinDay : Option ℕ → Type 0
IsWithinDay none = Unit
IsWithinDay (some n) = n ≤ 86400000

abbrev pub IsBounded : PhaseTiming → Type 0
IsBounded t =
    IsWithinDay t.startup_ms
    × IsWithinDay t.dep_install_ms
    × IsWithinDay t.execution_ms
    × IsWithinDay t.total_ms

abbrev OptionAll : Option (Option ℕ) → Type 0
OptionAll none = Unit
OptionAll (some o) = IsWithinDay o

within_day-lem : (o : Option ℤ) → OptionAll (within_day o)
within_day-lem none = tt
within_day-lem (some (pos n)) = ground arith
within_day-lem (some (negsuc n)) = tt

milliseconds-lem : (o : Option Text) → OptionAll (milliseconds o)
unfolding milliseconds
milliseconds-lem none = tt
milliseconds-lem (some []) = tt
milliseconds-lem (some (c ∷ cs)) = within_day-lem (parse_int (c ∷ cs))

parsed :
    (a b c d : Option (Option ℕ)) (p : Option Text) (s : Bool) (t : PhaseTiming)
    → OptionAll a
    → OptionAll b
    → OptionAll c
    → OptionAll d
    → (a >>= λ w. b >>= λ x. c >>= λ y. d >>= λ z. some (record {
      startup_ms = w;
      dep_install_ms = x;
      execution_ms = y;
      total_ms = z;
      phase_at_exit = p;
      dep_install_started = s;
    }))
      ≡ some t
    → IsBounded t
parsed none b c d p s t ha hb hc hd e = ground (arith, e)
parsed (some w) none c d p s t ha hb hc hd e = ground (arith, e)
parsed (some w) (some x) none d p s t ha hb hc hd e = ground (arith, e)
parsed (some w) (some x) (some y) none p s t ha hb hc hd e = ground (arith, e)
parsed (some w) (some x) (some y) (some z) p s t ha hb hc hd e =
    subst IsBounded (some-injective _ t e) (ha, hb, hc, hd)

parse_lines-IsBounded :
    (lines : List Text) (t : PhaseTiming) → parse_lines lines ≡ some t → IsBounded t
unfolding parse_lines codes
parse_lines-IsBounded lines t e =
    parsed (milliseconds (value_of (codes "startup_ms") lines))
      (milliseconds (value_of (codes "dep_install_ms") lines))
      (milliseconds (value_of (codes "execution_ms") lines))
      (milliseconds (value_of (codes "total_ms") lines)) (exit_phase_of lines)
      (is_started (value_of (codes "dep_install_started") lines)) t
      (milliseconds-lem (value_of (codes "startup_ms") lines))
      (milliseconds-lem (value_of (codes "dep_install_ms") lines))
      (milliseconds-lem (value_of (codes "execution_ms") lines))
      (milliseconds-lem (value_of (codes "total_ms") lines)) e

-- What a timing may be taken from: the control file alone where it can be read.
abbrev pub IsTrusted : Option PhaseFile → PhaseFile → Option PhaseTiming → Type 0
unfolding parse_phase_file
IsTrusted (some (content text)) output result = result ≡ (text >>= parse_content)
IsTrusted _ output result = result ≡ parse_phase_file none output

parse_phase_file_lem :
    (meta : Option PhaseFile) (output : PhaseFile)
    → IsTrusted meta output (parse_phase_file meta output)
unfolding parse_phase_file
parse_phase_file_lem none output = refl
parse_phase_file_lem (some PhaseFile.symlink) output = refl
parse_phase_file_lem (some PhaseFile.absent) output = refl
parse_phase_file_lem (some (content text)) output = refl

read_within_day :
    (o : Option (Option Text)) (t : PhaseTiming)
    → (o >>= λ text. text >>= parse_content) ≡ some t
    → IsBounded t
unfolding parse_content
read_within_day none t e = ground (arith, e)
read_within_day (some none) t e = ground (arith, e)
read_within_day (some (some text)) t e = parse_lines-IsBounded (split 10 (strip text)) t e

-- If parse_phase_file gives a timing, each of its durations is absent or at most a day; and where
-- the control directory has a phase file that is no link, the timing comes from that file alone,
-- whatever the output directory holds.
pub parse_phase_file-IsBounded :
    (meta : Option PhaseFile) (output : PhaseFile) (t : PhaseTiming)
    → parse_phase_file meta output ≡ some t
    → IsBounded t × IsTrusted meta output (some t)
unfolding parse_phase_file
parse_phase_file-IsBounded meta output t e = (
  read_within_day (or_else (meta_text meta) (readable output)) t e,
  subst (IsTrusted meta output) e (parse_phase_file_lem meta output),
)
