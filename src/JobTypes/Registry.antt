-- ===== src/JobTypes/Registry.antt =====
-- tako_vm/job_types.py: JobTypeRegistry with its file, the default job types and the merge of the
-- configured ones. The file is its list of entries; an entry that is no dictionary has no fields,
-- and a missing file has no entries.
use tako_vm.Prelude.{
  ℕ, String, Option, none, some, Bool, true, false, List, [], ◌∷◌, length, if◌then◌else◌, map,
  is_some,
}
use tako_vm.Security.{Text, same_text}
use tako_vm.Texts.{codes}
use tako_vm.JobTypes.{JobType, new_job_type}
use tako_vm.JobTypes.Config.{JobTypeConfig, from_config}
use tako_vm.JobTypes.Dictionary.{Json, Fields, to_dict, from_dict}
pub mod Laws
pub mod Saved

-- `_job_types`, a dictionary from the name in insertion order.
abbrev pub JobTypes : Type 0
JobTypes = List (Text × JobType)

unfoldable pub put : JobTypes → Text → JobType → JobTypes
unfolding same_text
put [] name j = (name, j) ∷ []
put ((k, i) ∷ d) name j =
    let rest = put d name j in if same_text k name then (k, j) ∷ d else (k, i) ∷ rest

unfoldable pub find_type : JobTypes → Text → Option JobType
unfolding same_text
find_type [] name = none
find_type ((k, i) ∷ d) name = if same_text k name then some i else find_type d name

unfoldable pub delete : JobTypes → Text → JobTypes
unfolding same_text
delete [] name = []
delete ((k, i) ∷ d) name = let rest = delete d name in if same_text k name then d else (k, i) ∷ rest

unfoldable pub values : JobTypes → List JobType
values [] = []
values ((k, j) ∷ d) = j ∷ values d

pub record JobTypeRegistry : Type 0 where
  pub job_types : JobTypes
  pub file : List Fields

-- _save
unfoldable pub save : JobTypeRegistry → JobTypeRegistry
unfolding values to_dict
save r = record r { file = map to_dict (values r.job_types) }

module _ (is_alnum : ℕ → Bool) (float_of : Text → Option ℕ) (lax_int : Json → Option ℕ) where
  -- _load: an invalid entry is skipped.
  unfoldable pub load_from : JobTypes → List Fields → JobTypes
  unfolding from_dict put
  load_from d [] = d
  load_from d (entry ∷ entries) = elim (from_dict is_alnum float_of lax_int entry) [
    | none ↦ load_from d entries
    | some j ↦ load_from (put d j.name j) entries
  ]

  -- The constructor, on the file of the data directory or of the older release.
  unfoldable pub load : (file legacy : Option (List Fields)) → JobTypeRegistry
  unfolding load_from
  load none none = record { job_types = []; file = [] }
  load none (some entries) = record { job_types = load_from [] entries; file = [] }
  load (some entries) legacy = record { job_types = load_from [] entries; file = entries }

unfoldable pub saved_if : Bool → JobTypeRegistry → JobTypeRegistry
unfolding save
saved_if persist r = if persist then save r else r

unfoldable pub register : JobType → Bool → JobTypeRegistry → JobTypeRegistry
unfolding put saved_if
register j persist r = saved_if persist (record r { job_types = put r.job_types j.name j })

unfoldable pub put_all : List JobType → JobTypes → JobTypes
unfolding put
put_all [] d = d
put_all (j ∷ js) d = put_all js (put d j.name j)

unfoldable pub register_many : List JobType → Bool → JobTypeRegistry → JobTypeRegistry
unfolding put_all saved_if
register_many [] persist r = r
register_many (j ∷ js) persist r =
    saved_if persist (record r { job_types = put_all (j ∷ js) r.job_types })

unfoldable pub get_type : JobTypeRegistry → Text → Option JobType
unfolding find_type
get_type r name = find_type r.job_types name

unfoldable pub list_types : JobTypeRegistry → List JobType
unfolding values
list_types r = values r.job_types

unfoldable pub remove : Text → JobTypeRegistry → Bool × JobTypeRegistry
unfolding find_type delete save
remove name r =
    if is_some (find_type r.job_types name)
    then (true, save (record r { job_types = delete r.job_types name }))
    else (false, r)

-- DEFAULT_JOB_TYPES
unfoldable pub default_job_types : List JobType
unfolding new_job_type codes
default_job_types =
    (record (new_job_type (codes "default")) { startup_timeout = 60 })
    ∷ (record (new_job_type (codes "data-processing")) {
      requirements = codes "pandas" ∷ codes "numpy" ∷ [];
      memory_limit = codes "1g";
      cpu_limit = 20;
      timeout = 60;
      startup_timeout = 180;
    })
    ∷ (record (new_job_type (codes "ml-inference")) {
      requirements = codes "numpy" ∷ codes "scikit-learn" ∷ [];
      memory_limit = codes "2g";
      cpu_limit = 20;
      timeout = 120;
      startup_timeout = 180;
    })
    ∷ []

unfoldable pub init_types : List JobType → JobTypeRegistry → JobTypeRegistry
unfolding get_type register
init_types [] r = r
init_types (j ∷ js) r = init_types js (if is_some (get_type r j.name) then r else register j true r)

unfoldable pub init_default_job_types : JobTypeRegistry → JobTypeRegistry
unfolding init_types default_job_types
init_default_job_types r = init_types default_job_types r

unfoldable pub merge_config_job_types : List JobTypeConfig → JobTypeRegistry → ℕ × JobTypeRegistry
unfolding register_many from_config
merge_config_job_types [] r = (0, r)
merge_config_job_types (c ∷ cs) r =
    (length (c ∷ cs), register_many (map from_config (c ∷ cs)) false r)
