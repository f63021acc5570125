-- ===== src/JobTypes/Config.antt =====
-- tako_vm/config.py: JobTypeConfig and JobTypeGpuConfig with their constraints, and the conversions
-- of tako_vm/job_types.py. A float is a number of tenths.
use tako_vm.Prelude.{
  ℕ, Option, none, some, Bool, true, false, not, ◌&&◌, ◌||◌, List, [], ◌∷◌, ◌*◌, length, leb,
  if◌then◌else◌, is_some, ◌==◌,
}
use tako_vm.Models.{ℤ, pos, negsuc}
use tako_vm.Security.{Text, is_empty, has_char}
use tako_vm.Texts.{codes, lower, strip, is_one_of, parse_int}
use tako_vm.JobTypes.{JobType}

pub record JobTypeGpuConfig : Type 0 where
  pub enabled : Bool
  pub vendor : Option Text
  pub count : Option ℕ
  pub device_ids : List Text

pub record JobTypeConfig : Type 0 where
  pub name : Text
  pub requirements : List Text
  pub python_version : Text
  pub base_image : Option Text
  pub shared_code : List Text
  pub environment : List (Text × Text)
  pub memory_limit : Text
  pub cpu_limit : ℕ
  pub timeout : ℕ
  pub startup_timeout : ℕ
  pub network_enabled : Bool
  pub session_enabled : Bool
  pub gpu : JobTypeGpuConfig

unfoldable pub from_config : JobTypeConfig → JobType
from_config c = record {
  name = c.name;
  requirements = c.requirements;
  python_version = c.python_version;
  base_image = c.base_image;
  shared_code = c.shared_code;
  environment = c.environment;
  memory_limit = c.memory_limit;
  cpu_limit = c.cpu_limit;
  timeout = c.timeout;
  startup_timeout = c.startup_timeout;
  network_enabled = c.network_enabled;
  session_enabled = c.session_enabled;
  gpu_enabled = c.gpu.enabled;
  gpu_vendor = c.gpu.vendor;
  gpu_count = c.gpu.count;
  gpu_device_ids = c.gpu.device_ids;
}

-- The arguments that to_config gives the model, before it validates them.
unfoldable pub config_of : JobType → JobTypeConfig
config_of j = record {
  name = j.name;
  requirements = j.requirements;
  python_version = j.python_version;
  base_image = j.base_image;
  shared_code = j.shared_code;
  environment = j.environment;
  memory_limit = j.memory_limit;
  cpu_limit = j.cpu_limit;
  timeout = j.timeout;
  startup_timeout = j.startup_timeout;
  network_enabled = j.network_enabled;
  session_enabled = j.session_enabled;
  gpu = record {
    enabled = j.gpu_enabled;
    vendor = j.gpu_vendor;
    count = j.gpu_count;
    device_ids = j.gpu_device_ids;
  };
}

-- validate_vendor
unfoldable pub validate_vendor : Option Text → Option (Option Text)
unfolding codes lower strip is_one_of
validate_vendor none = some none
validate_vendor (some v) =
    let normalized = strip (lower v) in
    if is_one_of normalized (codes "nvidia" ∷ codes "amd" ∷ [])
    then some (some normalized)
    else none

-- validate_device_ids, with the set of the ids seen.
unfoldable pub validate_device_ids : List Text → List Text → Option (List Text)
unfolding strip lower is_one_of has_char
validate_device_ids seen [] = some []
validate_device_ids seen (v ∷ vs) =
    let id = strip v in
    let rest = validate_device_ids (lower id ∷ seen) vs in
    if is_empty id || has_char 44 id || is_one_of (lower id) seen
    then none
    else elim rest [ none ↦ none | some ids ↦ some (id ∷ ids) ]

abbrev has_ids : List Text → Bool
has_ids [] = false
has_ids (v ∷ vs) = true

abbrev is_vendor : Text → Option Text → Bool
unfolding is_one_of
is_vendor v none = false
is_vendor v (some w) = is_one_of w (v ∷ [])

-- validate_gpu_config: the rules between the fields.
unfoldable pub validate_gpu_config : JobTypeGpuConfig → Bool
unfolding codes is_one_of
validate_gpu_config g =
    if not g.enabled
    then not (is_some g.vendor || is_some g.count || has_ids g.device_ids)
    else if not (is_some g.vendor)
    then false
    else if is_some g.count && has_ids g.device_ids
    then false
    else not (is_vendor (codes "amd") g.vendor && is_some g.count)

abbrev is_count : Option ℕ → Bool
is_count none = true
is_count (some n) = leb 1 n && leb n 16

-- JobTypeGpuConfig's constructor.
abbrev pub normal_gpu : JobTypeGpuConfig → Option Text → List Text → JobTypeGpuConfig
normal_gpu g vendor ids = record g { vendor = vendor; device_ids = ids }

unfoldable pub validate_gpu : JobTypeGpuConfig → Option JobTypeGpuConfig
unfolding validate_vendor validate_device_ids validate_gpu_config
validate_gpu g = elim (validate_vendor g.vendor) [
  | none ↦ none
  | some vendor ↦ elim (validate_device_ids [] g.device_ids) [
    | none ↦ none
    | some ids ↦
        if is_count g.count
          && leb (length g.device_ids) 16
          && validate_gpu_config (normal_gpu g vendor ids)
        then some (normal_gpu g vendor ids)
        else none
  ]
]

-- `v.endswith(c)` and `v[:-1]` for one character.
unfoldable pub ends_with : ℕ → Text → Bool
ends_with c [] = false
ends_with c (x ∷ []) = x == c
ends_with c (x ∷ y ∷ ys) = ends_with c (y ∷ ys)

unfoldable pub without_last : Text → Text
without_last [] = []
without_last (x ∷ []) = []
without_last (x ∷ y ∷ ys) = x ∷ without_last (y ∷ ys)

-- A size in megabytes from 64 to 32768; a negative number is below the lower bound.
abbrev is_size : ℕ → Option ℤ → Bool
is_size unit none = false
is_size unit (some (pos n)) = leb 64 (n * unit) && leb (n * unit) 32768
is_size unit (some (negsuc n)) = false

-- validate_memory_limit, with _parse_size_to_mb for `allow_k_and_bytes=False`.
unfoldable pub validate_memory_limit : Text → Option Text
unfolding lower strip ends_with without_last parse_int
validate_memory_limit value =
    let v = strip (lower value) in
    if ends_with 103 v
    then if is_size 1024 (parse_int (without_last v)) then some v else none
    else if ends_with 109 v
    then if is_size 1 (parse_int (without_last v)) then some v else none
    else none

-- `is_alnum` is `c.isalnum()`, by Python's character tables.
module _ (is_alnum : ℕ → Bool) where
  -- The name without dashes and underscores is not empty and all alphanumeric.
  unfoldable pub all_alnum : Text → Bool
  all_alnum [] = true
  all_alnum (c ∷ cs) = (c == 45 || c == 95 || is_alnum c) && all_alnum cs

  unfoldable pub some_alnum : Text → Bool
  some_alnum [] = false
  some_alnum (c ∷ cs) = not (c == 45 || c == 95) || some_alnum cs

  unfoldable pub validate_name : Text → Bool
  unfolding all_alnum some_alnum
  validate_name name =
      leb 1 (length name) && leb (length name) 64 && all_alnum name && some_alnum name

  -- The bounds of the numbers.
  unfoldable pub is_in_bounds : JobTypeConfig → Bool
  is_in_bounds c =
      leb 1 c.cpu_limit
      && leb c.cpu_limit 160
      && leb 1 c.timeout
      && leb c.timeout 3600
      && leb 10 c.startup_timeout
      && leb c.startup_timeout 600

  -- JobTypeConfig's constructor: the validated and normalised model, or `none` for a
  -- ValidationError.
  unfoldable pub validate : JobTypeConfig → Option JobTypeConfig
  unfolding validate_name is_in_bounds validate_memory_limit validate_gpu
  validate c = elim (validate_memory_limit c.memory_limit) [
    | none ↦ none
    | some memory_limit ↦ elim (validate_gpu c.gpu) [
      | none ↦ none
      | some gpu ↦
          if validate_name c.name && is_in_bounds c
          then some (record c { memory_limit = memory_limit; gpu = gpu })
          else none
    ]
  ]

  unfoldable pub to_config : JobType → Option JobTypeConfig
  unfolding config_of validate
  to_config j = validate (config_of j)
