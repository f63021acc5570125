-- ===== src/JobTypes/Dictionary.antt =====
-- tako_vm/job_types.py: JobType.to_dict and JobType.from_dict, on JSON values. A float is a number of
-- tenths.
use tako_vm.Prelude.{
  ℕ, Option, none, some, Bool, true, false, not, List, [], ◌∷◌, ◌*◌, ◌/◌, if◌then◌else◌, ◌==◌, map,
  ◌>>=◌,
}
use tako_vm.Models.{ℤ, pos, negsuc}
use tako_vm.Security.{Text, is_empty, same_text}
use tako_vm.Texts.{codes, parse_int}
use tako_vm.JobTypes.{JobType}
use tako_vm.JobTypes.Config.{JobTypeConfig, JobTypeGpuConfig, from_config, validate}

mutual
  pub data Json : Type 0 where
    null : Json
    flag : Bool → Json
    int : ℤ → Json
    float : ℕ → Json
    text : Text → Json
    array : Items → Json
    object : Fields → Json

  pub data Items : Type 0 where
    nil : Items
    cons : Json → Items → Items

  pub data Fields : Type 0 where
    end : Fields
    field : Text → Json → Fields → Fields

abbrev pub optional : Option Text → Json
optional none = null
optional (some t) = text t

abbrev pub optional_int : Option ℕ → Json
optional_int none = null
optional_int (some n) = int (pos n)

unfoldable pub texts : List Text → Items
texts [] = nil
texts (t ∷ ts) = cons (text t) (texts ts)

unfoldable pub pairs : List (Text × Text) → Fields
pairs [] = end
pairs ((k, v) ∷ ps) = field k (text v) (pairs ps)

unfoldable pub to_dict : JobType → Fields
unfolding codes texts pairs
to_dict j = field (codes "name") (text j.name) (
    field (codes "requirements") (array (texts j.requirements)) (
      field (codes "python_version") (text j.python_version) (
        field (codes "base_image") (optional j.base_image) (
          field (codes "shared_code") (array (texts j.shared_code)) (
            field (codes "environment") (object (pairs j.environment)) (
              field (codes "memory_limit") (text j.memory_limit) (
                field (codes "cpu_limit") (float j.cpu_limit) (
                  field (codes "timeout") (int (pos j.timeout)) (
                    field (codes "startup_timeout") (int (pos j.startup_timeout)) (
                      field (codes "network_enabled") (flag j.network_enabled) (
                        field (codes "session_enabled") (flag j.session_enabled) (
                          field (codes "gpu")
                            (object (
                              field (codes "enabled") (flag j.gpu_enabled) (
                                field (codes "vendor") (optional j.gpu_vendor) (
                                  field (codes "count") (optional_int j.gpu_count) (
                                    field (codes "device_ids") (array (texts j.gpu_device_ids))
                                      end)))))
                            end))))))))))))

-- `data.get(key)`, `none` for a missing key.
unfoldable pub get_field : Text → Fields → Option Json
unfolding same_text
get_field key end = none
get_field key (field k v rest) = if same_text k key then some v else get_field key rest

abbrev pub get_or : Text → Json → Fields → Json
get_or key default fields = elim (get_field key fields) [ none ↦ default | some v ↦ v ]

abbrev has_items : Items → Bool
has_items nil = false
has_items (cons v vs) = true

abbrev has_fields : Fields → Bool
has_fields end = false
has_fields (field k v vs) = true

abbrev is_zero : ℤ → Bool
is_zero (pos n) = n == 0
is_zero (negsuc n) = false

-- `bool(value)`
unfoldable pub truth : Json → Bool
truth null = false
truth (flag b) = b
truth (int n) = not (is_zero n)
truth (float n) = not (n == 0)
truth (text t) = not (is_empty t)
truth (array vs) = has_items vs
truth (object fs) = has_fields fs

-- `data.get("gpu") or {}`, `none` where a value that is no dictionary has no `get`.
abbrev pub gpu_of : Fields → Option Fields
unfolding get_field codes truth
gpu_of entry = elim (get_or (codes "gpu") null entry) [
  | null ↦ some end
  | flag b ↦ if b then none else some end
  | int n ↦ if truth (int n) then none else some end
  | float n ↦ if truth (float n) then none else some end
  | text t ↦ if is_empty t then some end else none
  | array vs ↦ if has_items vs then none else some end
  | object fs ↦ some fs
]

-- A field of type `str`, and one of type `Optional[str]`.
abbrev pub str_of : Json → Option Text
str_of (text t) = some t
str_of _ = none

abbrev pub optional_of : Json → Option (Option Text)
optional_of null = some none
optional_of (text t) = some (some t)
optional_of _ = none

abbrev cons_option {ℓ} : {A : Type ℓ} → Option A → Option (List A) → Option (List A)
cons_option none vs = none
cons_option (some v) none = none
cons_option (some v) (some vs) = some (v ∷ vs)

unfoldable pub strs : Items → Option (List Text)
strs nil = some []
strs (cons v vs) = cons_option (str_of v) (strs vs)

unfoldable pub keys : Fields → List Text
keys end = []
keys (field k v vs) = k ∷ keys vs

-- `list(value)` for a field of type `List[str]`: a text is the list of its characters, a dictionary
-- that of its keys.
unfoldable pub list_of : Json → Option (List Text)
unfolding strs keys
list_of (array vs) = strs vs
list_of (text t) = some (map (λ c. c ∷ []) t)
list_of (object fs) = some (keys fs)
list_of _ = none

-- Two texts, the key and the value of an item of `dict(list)`.
abbrev pair_of : Option (List Text) → Option (Text × Text)
pair_of none = none
pair_of (some []) = none
pair_of (some (k ∷ [])) = none
pair_of (some (k ∷ v ∷ [])) = some (k, v)
pair_of (some (k ∷ v ∷ w ∷ ws)) = none

-- A dictionary's assignment.
unfoldable pub assign : Text → Text → List (Text × Text) → List (Text × Text)
unfolding same_text
assign k v [] = (k, v) ∷ []
assign k v ((j, w) ∷ ps) =
    let rest = assign k v ps in if same_text j k then (j, v) ∷ ps else (j, w) ∷ rest

unfoldable pub assign_items : List (Text × Text) → Items → Option (List (Text × Text))
unfolding list_of assign
assign_items acc nil = some acc
assign_items acc (cons v vs) = elim (pair_of (list_of v)) [
  | none ↦ none
  | some (k, w) ↦ assign_items (assign k w acc) vs
]

unfoldable pub str_fields : Fields → Option (List (Text × Text))
str_fields end = some []
str_fields (field k v vs) =
    cons_option (elim (str_of v) [ none ↦ none | some t ↦ some (k, t) ]) (str_fields vs)

-- `dict(value)` for a field of type `Dict[str, str]`.
unfoldable pub dict_of : Json → Option (List (Text × Text))
unfolding str_fields assign_items
dict_of (object fs) = str_fields fs
dict_of (array vs) = assign_items [] vs
dict_of (text t) = if is_empty t then some [] else none
dict_of _ = none

-- A number that is not negative; every field of type `int` has a positive lower bound.
abbrev natural : Option ℤ → Option ℕ
natural none = none
natural (some (pos n)) = some n
natural (some (negsuc n)) = none

-- `int(value)`
unfoldable pub int_of : Json → Option ℕ
unfolding parse_int
int_of (flag b) = some (if b then 1 else 0)
int_of (int n) = natural (some n)
int_of (float n) = some (n / 10)
int_of (text t) = natural (parse_int t)
int_of _ = none

-- `is_alnum` is `c.isalnum()`; `float_of` is `float(text)`; `lax_int` is pydantic's reading of a
-- value of a field of type `int`, of which the round trip needs that it keeps an int.
module _ (is_alnum : ℕ → Bool) (float_of : Text → Option ℕ) (lax_int : Json → Option ℕ) where
  -- `float(value)`
  unfoldable pub number_of : Json → Option ℕ
  number_of (flag b) = some (if b then 10 else 0)
  number_of (int (pos n)) = some (n * 10)
  number_of (int (negsuc n)) = none
  number_of (float n) = some n
  number_of (text t) = float_of t
  number_of _ = none

  unfoldable pub count_of : Json → Option (Option ℕ)
  count_of null = some none
  count_of v = elim (lax_int v) [ none ↦ none | some n ↦ some (some n) ]

  unfoldable pub gpu_from : Fields → Fields → Option JobTypeGpuConfig
  unfolding codes get_field truth list_of count_of
  gpu_from entry gpu = do
    vendor ← optional_of (get_or (codes "gpu_vendor") (get_or (codes "vendor") null gpu) entry)
    count ← count_of (get_or (codes "gpu_count") (get_or (codes "count") null gpu) entry)
    ids ←
        list_of
          (get_or (codes "gpu_device_ids") (get_or (codes "device_ids") (array nil) gpu) entry)
    some (record {
      enabled =
          truth (get_or (codes "gpu_enabled") (get_or (codes "enabled") (flag false) gpu) entry);
      vendor = vendor;
      count = count;
      device_ids = ids;
    })

  -- The arguments of the model: those of the candidate, of the types of the fields.
  unfoldable pub arguments : Fields → Option JobTypeConfig
  unfolding codes get_field truth list_of dict_of int_of number_of gpu_from
  arguments entry = do
    gpu ← gpu_of entry
    name_value ← get_field (codes "name") entry
    name ← str_of name_value
    requirements ← list_of (get_or (codes "requirements") (array nil) entry)
    python_version ← str_of (get_or (codes "python_version") (text (codes "3.11")) entry)
    base_image ← optional_of (get_or (codes "base_image") null entry)
    shared_code ← list_of (get_or (codes "shared_code") (array nil) entry)
    environment ← dict_of (get_or (codes "environment") (object end) entry)
    memory_limit ← str_of (get_or (codes "memory_limit") (text (codes "512m")) entry)
    cpu_limit ← number_of (get_or (codes "cpu_limit") (float 10) entry)
    timeout ← int_of (get_or (codes "timeout") (int (pos 30)) entry)
    startup_timeout ← int_of (get_or (codes "startup_timeout") (int (pos 120)) entry)
    gpu_config ← gpu_from entry gpu
    some (record {
      name = name;
      requirements = requirements;
      python_version = python_version;
      base_image = base_image;
      shared_code = shared_code;
      environment = environment;
      memory_limit = memory_limit;
      cpu_limit = cpu_limit;
      timeout = timeout;
      startup_timeout = startup_timeout;
      network_enabled = truth (get_or (codes "network_enabled") (flag false) entry);
      session_enabled = truth (get_or (codes "session_enabled") (flag false) entry);
      gpu = gpu_config;
    })

  -- `none` for any exception.
  unfoldable pub from_dict : Fields → Option JobType
  unfolding arguments validate from_config
  from_dict entry = do
    raw ← arguments entry
    config ← validate is_alnum raw
    some (from_config config)
