-- ===== src/Examples/Containers.antt =====
-- Runs of the container models, of the registry of job types and of the timeouts.
use tako_vm.Prelude.{ℕ, ◌≤◌, Option, none, some, Bool, true, false, List, [], ◌∷◌, ◌≡◌, refl, ◌↔◌}
use tako_vm.Models.{pos}
use tako_vm.Security.{Text}
use tako_vm.Texts.{codes}
use tako_vm.JobTypes.{JobType, new_job_type}
use tako_vm.JobTypes.Dictionary.{Json, int}
use tako_vm.JobTypes.Registry.{JobTypeRegistry, load, save, get_type, default_job_types}
use tako_vm.JobTypes.Registry.Saved.{Request, registers, removes, defaults, requests, load-save}
use tako_vm.Execution.Health.{CircuitBreakerConfig, new_breaker, is_available}
use tako_vm.Execution.Docker.{ContainerLimits, Ran, generate_container_name}
use tako_vm.Execution.Container.{Settings, Host, Workspace, run_command}
use tako_vm.Execution.Container.Select.{prefix, network, select}
use tako_vm.Execution.Container.Parts.{isolation}
use tako_vm.Execution.Container.Command.{run_command-isolation}
use tako_vm.Execution.Container.Run.{DockerRun, finished, run_container}
use tako_vm.Execution.Container.Run.Removal.{IsAccounted, run_container-IsAccounted}
use tako_vm.Execution.Timeouts.{Job, Limits, budget_of_job, executor_timeout}
use tako_vm.Execution.Timeouts.Budget.{run_time, executor_timeout-covers, executor_timeout_iff}
use tako_vm.Execution.Worker.Isolation.{runsc, listed}
use tako_vm.Sandbox.Image.{Preparation}
use tako_vm.Sandbox.{SandboxConfig}

abbrev is_alnum : ℕ → Bool
is_alnum c = true

abbrev float_of : Text → Option ℕ
float_of t = none

abbrev lax_int : Json → Option ℕ
lax_int (int (pos n)) = some n
lax_int _ = none

abbrev some_requests : List Request
some_requests = defaults ∷ removes [] ∷ registers (new_job_type (100 ∷ [])) true ∷ []

load-save_example :
    load is_alnum float_of lax_int
      (some (save (requests some_requests (load is_alnum float_of lax_int none none))).file)
      none
    ≡ save (requests some_requests (load is_alnum float_of lax_int none none))
unfolding requests load default_job_types new_job_type tako_vm.JobTypes.Config.to_config
load-save_example =
    load-save is_alnum float_of lax_int (λ n. refl) none none some_requests
      (refl, (refl, (refl, (refl, tt))))

abbrev empty_registry : JobTypeRegistry
empty_registry = record { job_types = []; file = [] }

abbrev limits : ContainerLimits
limits = record {
  nofile_soft = 256;
  nofile_hard = 512;
  nproc_soft = 64;
  nproc_hard = 64;
  fsize = 1000000;
  pids_limit = 100;
  tmpfs_size = 49 ∷ 109 ∷ [];
}

-- "a:1", "/p" and "runsc"
abbrev image : Text
image = 97 ∷ 58 ∷ 49 ∷ []

abbrev path : Text
path = 47 ∷ 112 ∷ []

abbrev settings : Settings
settings = record {
  docker_image = image;
  container_limits = limits;
  allow_runtime_requirements = true;
  enable_cap_restrictions = true;
  enable_runtime_dependency_cache = true;
  enable_userns = false;
  enable_seccomp = true;
  seccomp_profile_path = some path;
  dependency_proxy_url = none;
  runtime = 114 ∷ 117 ∷ 110 ∷ 115 ∷ 99 ∷ [];
}

abbrev host : Host
host = record {
  is_native_linux = true;
  exists = λ p. true;
  exists_cached = λ i. false;
  entrypoint_cached = λ i. false;
  image_found = λ i. false;
  executor_entrypoint = λ i. none;
}

abbrev workspace : Workspace
workspace = record { code_dir = path; input_dir = path; output_dir = path; meta_dir = some path }

abbrev job : JobType
job = record {
  name = 106 ∷ [];
  requirements = [];
  python_version = [];
  base_image = none;
  shared_code = [];
  environment = (65 ∷ [], 66 ∷ []) ∷ [];
  memory_limit = 49 ∷ 103 ∷ [];
  cpu_limit = 10;
  timeout = 30;
  startup_timeout = 120;
  network_enabled = false;
  session_enabled = false;
  gpu_enabled = false;
  gpu_vendor = none;
  gpu_count = none;
  gpu_device_ids = [];
}

abbrev shown_float : ℕ → Text
shown_float n = 49 ∷ []

abbrev breaker : CircuitBreakerConfig
breaker = record { failure_threshold = 3; recovery_timeout = 30; success_threshold = 1 }

abbrev no_docker : List Text → Ran
no_docker args = Ran.raised

abbrev killed : DockerRun
killed = finished (pos 137) [] []

run_container-IsAccounted_example :
    IsAccounted breaker 9
      (is_available breaker 5 new_breaker).1
      (λ has_deps i.
        run_command shown_float settings host workspace 30 120 job has_deps
          (generate_container_name path (codes "tako") (some image) 1)
          i
          (some image))
      (generate_container_name path (codes "tako") (some image) 1)
      (run_container breaker no_docker 5 9 shown_float settings host workspace path 30 120 job []
        (some image)
        1
        new_breaker
        killed)
run_container-IsAccounted_example =
    run_container-IsAccounted breaker no_docker 5 9 shown_float settings host workspace path 30 120
      job [] (some image) 1 new_breaker killed

run_command-isolation_example :
    select
      (prefix network)
      (run_command shown_float settings host workspace 30 120 job false path image none)
    ≡ isolation true false false false job.memory_limit settings host workspace network
unfolding tako_vm.Security.Image.validate_docker_image
run_command-isolation_example =
    run_command-isolation shown_float settings host workspace 30 120 job false path image none refl
      network

abbrev library : SandboxConfig
library = record {
  image = image;
  timeout = 30;
  startup_timeout = 120;
  memory_limit = job.memory_limit;
  cpu_limit = 10;
  network_enabled = false;
  allow_runtime_requirements = true;
  dependency_proxy_url = none;
  enable_runtime_dependency_cache = false;
  package_dirs = path ∷ [];
  enable_cap_restrictions = true;
  cache_scope = path;
}

-- A sandbox that builds its image and asks for the runtimes.
abbrev preparation : Preparation
preparation = record {
  auto_build = true;
  image_checked = false;
  package_dir = some path;
  builds = true;
  requested = runsc;
  strict = true;
  gvisor_available = none;
  probe = listed true;
}

abbrev deployment : Limits
deployment = record {
  production_mode = false;
  default_timeout = 86;
  max_timeout = 300;
  default_startup_timeout = 120;
  max_startup_timeout = 300;
  session_idle_timeout_seconds = 600;
  session_max_ttl_seconds = 3600;
  job_types = [];
}

abbrev typed : Job
typed = record { job_type = some (106 ∷ []); timeout = none; startup_timeout = none }

executor_timeout-covers_example :
    run_time (budget_of_job deployment empty_registry typed)
    ≤ executor_timeout deployment empty_registry typed
unfolding get_type
executor_timeout-covers_example = executor_timeout-covers deployment empty_registry typed refl refl

executor_timeout_iff_example :
    (run_time (
        budget_of_job deployment empty_registry
          (record { job_type = none; timeout = none; startup_timeout = none }))
      ≤ executor_timeout deployment empty_registry
          (record { job_type = none; timeout = none; startup_timeout = none }))
    ↔ (86 ≤ 85)
unfolding tako_vm.Execution.Timeouts.validate_timeouts
executor_timeout_iff_example = executor_timeout_iff deployment empty_registry none refl
