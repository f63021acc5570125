-- ===== src/Sandbox/Image.antt =====
-- tako_vm/sandbox.py: _ensure_image and _build_image, and the commands of a run before its container.
use tako_vm.Prelude.{Option, none, some, Bool, true, false, not, List, [], ◌∷◌, ◌++◌, if◌then◌else◌}
use tako_vm.Security.{Text}
use tako_vm.Texts.{codes}
use tako_vm.Execution.Container.{Host, image_exists}
use tako_vm.Execution.Worker.Isolation.{Runtime, runc, runsc, Probe}

-- What a run meets before its container: the flags of the Sandbox, the directory of the sources that
-- has the Dockerfile, whether `docker build` of it ends with 0, and what resolve_runtime reads.
pub record Preparation : Type 0 where
  pub auto_build : Bool
  pub image_checked : Bool
  pub package_dir : Option Text
  pub builds : Bool
  pub requested : Runtime
  pub strict : Bool
  pub gvisor_available : Option Bool
  pub probe : Probe

abbrev pub build_command : Text → Text → List Text
unfolding codes
build_command image dir =
    codes "docker"
    ∷ codes "build"
    ∷ codes "-t"
    ∷ image
    ∷ codes "-f"
    ∷ (dir ++ codes "/docker/Dockerfile.executor")
    ∷ dir
    ∷ []

abbrev pub info_command : List Text
unfolding codes
info_command = codes "docker" ∷ codes "info" ∷ codes "--format" ∷ codes "{{.Runtimes}}" ∷ []

-- _ensure_image with _build_image: whether the image is there, false for a RuntimeError, and the
-- commands for docker.
unfoldable pub ensure_image : Preparation → Host → Text → Bool × List (List Text)
unfolding image_exists build_command
ensure_image p h image =
    let there = image_exists h image in
    if p.image_checked
    then (true, [])
    else if there.0
    then (true, there.1)
    else if not p.auto_build
    then (false, there.1)
    else elim p.package_dir [
      | none ↦ (false, there.1)
      | some dir ↦ (p.builds, there.1 ++ build_command image dir ∷ [])
    ]

-- The probe of check_gvisor_available.
unfoldable pub probe_commands : Runtime → Option Bool → List (List Text)
unfolding info_command
probe_commands runsc none = info_command ∷ []
probe_commands runsc (some known) = []
probe_commands runc cache = []

unfoldable pub runtime_text : Runtime → Text
unfolding codes
runtime_text runc = codes "runc"
runtime_text runsc = codes "runsc"
