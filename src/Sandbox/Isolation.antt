-- ===== src/Sandbox/Isolation.antt =====
-- tako_vm/sandbox.py: the library's container is isolated like that of a job.
use tako_vm.Prelude.{Option, none, some, Bool, true, false, List, []}
use tako_vm.Security.{Text}
use tako_vm.Execution.Container.Select.{Flag, bind, user}

-- Every kind of option but the bind mounts.
abbrev pub is_bind : Flag → Bool
is_bind bind = true
is_bind _ = false

abbrev pub is_user : Flag → Bool
is_user user = true
is_user _ = false

-- The arguments of package_args, whatever the directories.
abbrev pub packages_of : Option (List Text × List Text) → List Text
packages_of none = []
packages_of (some (args, targets)) = args

abbrev pub targets_of : Option (List Text × List Text) → List Text
targets_of none = []
targets_of (some (args, targets)) = targets
