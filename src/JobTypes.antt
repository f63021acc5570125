-- ===== src/JobTypes.antt =====
-- tako_vm/job_types.py and the job types of tako_vm/config.py. A float is a number of
-- tenths.
use tako_vm.Prelude.{
  ℕ, String, Option, none, some, Bool, true, false, not, ◌&&◌, ◌||◌, List, [], ◌∷◌, ◌++◌, length,
  leb, if◌then◌else◌, contains, Dict, get, put, pop, is_some, map,
}
use tako_vm.Security.{Text}
use tako_vm.Texts.{codes}
pub mod Config
pub mod Dictionary
pub mod RoundTrip
pub mod Registry

-- JobType
pub record JobType : Type 0 where
  pub name : Text
  pub requirements : List Text
  pub python_version : Text
  pub base_image : Option Text
  pub shared_code : List Text
  pub environment : List (Text × Text)
  pub memory_limit : Text
  pub cpu_limit : ℕ
  pub timeout : ℕ
  pub startup_timeout : ℕ
  pub network_enabled : Bool
  pub session_enabled : Bool
  pub gpu_enabled : Bool
  pub gpu_vendor : Option Text
  pub gpu_count : Option ℕ
  pub gpu_device_ids : List Text

-- The fields' defaults.
unfoldable pub new_job_type : Text → JobType
unfolding codes
new_job_type name = record {
  name = name;
  requirements = [];
  python_version = codes "3.11";
  base_image = none;
  shared_code = [];
  environment = [];
  memory_limit = codes "512m";
  cpu_limit = 10;
  timeout = 30;
  startup_timeout = 120;
  network_enabled = false;
  session_enabled = false;
  gpu_enabled = false;
  gpu_vendor = none;
  gpu_count = none;
  gpu_device_ids = [];
}
