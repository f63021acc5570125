-- ===== src/Sandbox/Removal.antt =====
-- tako_vm/sandbox.py: a run removes its container, and reports no error with a success.
use tako_vm.Prelude.{Option, none, some, true, List, [], ◌∷◌, ◌++◌, ◌≡◌, All, false, ◌⊎◌}
use tako_vm.Models.{pos}
use tako_vm.Security.{Text, validate_docker_run_args}
use tako_vm.Execution.Docker.{remove_command}
use tako_vm.Execution.Container.{exists_command}
use tako_vm.Sandbox.{SandboxResult, Built, command, rejected, Ended, unavailable}
use tako_vm.Sandbox.Image.{build_command, info_command}

-- A success has the exit code 0 and no error.
abbrev pub IsConsistent : Option SandboxResult → Type 0
IsConsistent none = Unit
IsConsistent (some r) = r.success ≡ true → (r.exit_code ≡ pos 0) × (r.error ≡ none)

-- A command before the container: it looks for the image, builds it, or probes the runtimes.
abbrev pub IsPreparing : List Text → Type 0
IsPreparing cmd =
    ((image : Text) × (cmd ≡ exists_command image))
    ⊎ ((image : Text) × (dir : Text) × (cmd ≡ build_command image dir))
    ⊎ (cmd ≡ info_command)

-- No container ran: an exception, or a result that is no success.
abbrev pub IsUnsuccessful : Option SandboxResult → Type 0
IsUnsuccessful none = Unit
IsUnsuccessful (some r) = r.success ≡ false

-- A run without success that gives docker preparing commands only, or one that, after such
-- commands, first gives an accepted command, and last the removal of its container.
abbrev pub IsRemoved : Ended → Type 0
IsRemoved e =
    (IsUnsuccessful e.0 × All IsPreparing e.1)
    ⊎ ((before : List (List Text)) × (cmd : List Text) × (name : Text) × (middle : List (List Text))
        × (e.1 ≡ before ++ (cmd ∷ middle ++ remove_command name ∷ []))
        × All IsPreparing before
        × (validate_docker_run_args cmd ≡ true))

-- The same of a run that is prepared.
abbrev IsRunOrNone : Ended → Type 0
IsRunOrNone e =
    (IsUnsuccessful e.0 × (e.1 ≡ []))
    ⊎ ((cmd : List Text) × (name : Text) × (middle : List (List Text)) × (e.1
          ≡ cmd ∷ middle ++ remove_command name ∷ [])
        × (validate_docker_run_args cmd ≡ true))

-- A command that is built is one that validate_docker_run_args accepts.
abbrev IsChecked : Built → Type 0
IsChecked (rejected why) = Unit
IsChecked unavailable = Unit
IsChecked (command cmd name) = validate_docker_run_args cmd ≡ true
