-- ===== src/Examples/Versions.antt =====
-- Runs of the stored versions, the sessions and the phase files.
use tako_vm.Prelude.{ℕ, zero, suc, Option, none, some, true, false, [], ◌∷◌, ◌++◌, ◌≡◌, refl}
use tako_vm.Security.{Text}
use tako_vm.Texts.{is_one_of}
use tako_vm.Versions.{JobVersion, full_ref, resolve, found}
use tako_vm.Versions.Reference.{resolve-full_ref}
use tako_vm.Execution.Docker.Session.{
  validate_session_workspace_dir, is_absolute, without_slashes, path_str, parts_of,
}
use tako_vm.Execution.Docker.Session.Workspace.{
  IsOutside, IsOutsideReal, validate_session_workspace_dir-IsOutside,
}
use tako_vm.Execution.Phase.{PhaseFile, PhaseTiming, symlink, content, parse_phase_file}
use tako_vm.Execution.Phase.Trust.{IsBounded, IsTrusted, parse_phase_file-IsBounded}
use tako_vm.Storage.Sessions.{SessionEvent, list_session_events, events_after}
use tako_vm.Storage.Sessions.Events.{saved_events, empty_table, last_id, list_session_events-next}

abbrev nines : ℕ → Text
nines zero = []
nines (suc n) = 57 ∷ nines n

abbrev eights : ℕ → Text
eights zero = []
eights (suc n) = 56 ∷ eights n

-- The version of the job type "a" with a digest.
abbrev of_digest : Text → JobVersion
of_digest d = record {
  job_type_name = 97 ∷ [];
  version_tag = none;
  digest = d;
  built_at = 0;
  built_by = none;
  dockerfile_hash = [];
  requirements_hash = [];
  image_ref = [];
}

abbrev nine : JobVersion
nine = of_digest (nines 64)

abbrev eight : JobVersion
eight = of_digest (eights 64)

resolve-full_ref_example : resolve ([] ++ nine ∷ eight ∷ []) (full_ref nine) ≡ (97 ∷ [], found nine)
unfolding tako_vm.Security.has_char tako_vm.Security.all_chars full_ref resolve
    tako_vm.Versions.Reference.clashes
resolve-full_ref_example = resolve-full_ref nine [] (eight ∷ []) refl refl refl

-- "/srv/w", which does not exist
abbrev dir : Text
dir = 47 ∷ 115 ∷ 114 ∷ 118 ∷ 47 ∷ 119 ∷ []

abbrev absent : Text → Option Text
absent t = none

validate_session_workspace_dir-IsOutside_example :
    (is_absolute dir ≡ true)
    × (dir ≡ without_slashes (path_str dir))
    × (is_one_of (46 ∷ 46 ∷ []) (parts_of dir) ≡ false)
    × IsOutside dir
    × IsOutsideReal none
unfolding validate_session_workspace_dir is_absolute path_str without_slashes parts_of
validate_session_workspace_dir-IsOutside_example =
    validate_session_workspace_dir-IsOutside absent dir dir refl

-- "total_ms=5" in the control file, and a link in the output
abbrev control : Option PhaseFile
control = some (content (some (116 ∷ 111 ∷ 116 ∷ 97 ∷ 108 ∷ 95 ∷ 109 ∷ 115 ∷ 61 ∷ 53 ∷ [])))

abbrev timing : PhaseTiming
timing = record {
  startup_ms = none;
  dep_install_ms = none;
  execution_ms = none;
  total_ms = some 5;
  phase_at_exit = none;
  dep_install_started = false;
}

parse_phase_file-IsBounded_example : IsBounded timing × IsTrusted control symlink (some timing)
unfolding parse_phase_file
parse_phase_file-IsBounded_example = parse_phase_file-IsBounded control symlink timing refl

abbrev event : SessionEvent
event = record {
  id = 0;
  session_id = "s";
  direction = "in";
  event_type = "text";
  payload = none;
  created_at = 0;
}

abbrev other : SessionEvent
other = record event { session_id = "o" }

list_session_events-next_example :
    list_session_events (saved_events (event ∷ other ∷ event ∷ event ∷ []) empty_table) "s" 0 2
      ++ events_after "s"
          (last_id 0 (
            list_session_events
              (saved_events (event ∷ other ∷ event ∷ event ∷ []) empty_table)
              "s"
              0
              2))
          (saved_events (event ∷ other ∷ event ∷ event ∷ []) empty_table).rows
    ≡ record event { id = 1 } ∷ record event { id = 3 } ∷ record event { id = 4 } ∷ []
unfolding tako_vm.Storage.Sessions.Events.expected
list_session_events-next_example =
    list_session_events-next (event ∷ other ∷ event ∷ event ∷ []) "s" 0 2
