-- ===== src/JobTypes/RoundTrip.antt =====
-- tako_vm/job_types.py: a job type that is written by to_dict is read back by from_dict.
use tako_vm.Prelude.{ℕ, Option, none, some, Bool, List, [], ◌∷◌, ◌≡◌, refl, ◌>>=◌}
use tako_vm.Models.{pos}
use tako_vm.Security.{Text, same_text}
use tako_vm.Texts.{codes}
use tako_vm.JobTypes.{JobType}
use tako_vm.JobTypes.Config.{from_config, config_of, to_config}
use tako_vm.JobTypes.Dictionary.{
  Json, int, texts, pairs, optional, optional_int, optional_of, count_of, strs, str_fields, list_of,
  dict_of, to_dict, get_field, truth, number_of, int_of, gpu_from, arguments, from_dict,
}

strs-texts : (ts : List Text) → strs (texts ts) ≡ some ts
unfolding strs texts
strs-texts [] = refl
strs-texts (t ∷ ts) = rw (strs-texts ts) refl

str_fields-pairs : (ps : List (Text × Text)) → str_fields (pairs ps) ≡ some ps
unfolding str_fields pairs
str_fields-pairs [] = refl
str_fields-pairs ((k, v) ∷ ps) = rw (str_fields-pairs ps) refl

optional_of-optional : (o : Option Text) → optional_of (optional o) ≡ some o
optional_of-optional none = refl
optional_of-optional (some t) = refl

from_config-config_of : (j : JobType) → from_config (config_of j) ≡ j
unfolding from_config config_of
from_config-config_of j = refl

module _ (is_alnum : ℕ → Bool) (float_of : Text → Option ℕ) (lax_int : Json → Option ℕ)
    (keeps : (n : ℕ) → lax_int (int (pos n)) ≡ some n) where
  count_of-optional_int :
      (o : Option ℕ) → count_of is_alnum float_of lax_int (optional_int o) ≡ some o
  unfolding count_of
  count_of-optional_int none = refl
  count_of-optional_int (some n) = rw (keeps n) refl

  pub arguments-to_dict :
      (j : JobType) → arguments is_alnum float_of lax_int (to_dict j) ≡ some (config_of j)
  unfolding arguments to_dict config_of gpu_from get_field codes same_text list_of dict_of truth
      int_of number_of
  arguments-to_dict j =
      rw
        (
          strs-texts j.requirements,
          strs-texts j.shared_code,
          str_fields-pairs j.environment,
          optional_of-optional j.base_image,
          strs-texts j.gpu_device_ids,
          optional_of-optional j.gpu_vendor,
          count_of-optional_int j.gpu_count,
        )
        refl

  pub from_dict-to_dict :
      (j : JobType)
      → to_config is_alnum j ≡ some (config_of j)
      → from_dict is_alnum float_of lax_int (to_dict j) ≡ some j
  unfolding from_dict to_config
  from_dict-to_dict j valid = rw (arguments-to_dict j, ◌>>=◌, valid, from_config-config_of j) refl
