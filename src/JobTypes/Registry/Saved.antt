-- ===== src/JobTypes/Registry/Saved.antt =====
-- tako_vm/job_types.py: the registry that is loaded from the file it was saved to, and the calls
-- that keep it so.
use tako_vm.Prelude.{
  ℕ, Option, none, some, Bool, true, false, List, [], ◌∷◌, ◌++◌, ◌≡◌, refl, sym, arith, ap, ◌∙◌,
  is_some, inl, inr, Bool-cases, map, append-nil, append_assoc,
}
use tako_vm.Models.{pos}
use tako_vm.Security.{Text, same_text}
use tako_vm.Texts.Laws.{same_iff}
use tako_vm.JobTypes.{JobType}
use tako_vm.JobTypes.Config.{JobTypeConfig, config_of, from_config, to_config}
use tako_vm.JobTypes.Dictionary.{Json, int, Fields, to_dict, from_dict}
use tako_vm.JobTypes.RoundTrip.{from_dict-to_dict}
use tako_vm.JobTypes.Registry.{
  JobTypes, JobTypeRegistry, put, find_type, put_all, values, load_from, load, save, register,
  register_many, remove, init_default_job_types, merge_config_job_types, init_types,
  default_job_types, get_type, saved_if,
}
use tako_vm.JobTypes.Registry.Laws.{IsKeyed, put-IsKeyed, put_all-IsKeyed, delete-IsKeyed}

-- An assignment to a new name goes to the end.
put-append :
    (d : JobTypes) (k : Text) (j : JobType) → find_type d k ≡ none → put d k j ≡ d ++ (k, j) ∷ []
unfolding put find_type
put-append [] k j free = refl
put-append ((i, v) ∷ d) k j free = elim (Bool-cases (same_text i k)) [
  | inl same ↦ ground (arith, same, free)
  | inr other ↦ rw other (ap (◌∷◌ (i, v)) (put-append d k j (ground (arith, other, free))))
]

-- A name of the rest is not in what stands before it.
find_type-before :
    (d : JobTypes) (k : Text) (j : JobType) (e : JobTypes)
    → IsKeyed (d ++ (k, j) ∷ e)
    → find_type d k ≡ none
unfolding find_type IsKeyed
find_type-before [] k j e keyed = refl
find_type-before ((i, v) ∷ d) k j e keyed =
    ground (arith, find_type-before d k j e keyed.2, same_iff i k, absent d i keyed.1)
  where
    absent :
        (c : JobTypes) (n : Text) → find_type (c ++ (k, j) ∷ e) n ≡ none → same_text k n ≡ false
    absent [] n h = ground arith
    absent ((i, v) ∷ c) n h = absent c n (ground (arith, h))

values-key :
    (d : JobTypes) (k : Text) (j : JobType) (e : JobTypes) → IsKeyed (d ++ (k, j) ∷ e) → k ≡ j.name
unfolding IsKeyed
values-key [] k j e keyed = keyed.0
values-key (x ∷ d) k j e keyed = values-key d k j e keyed.2

put-name :
    (d : JobTypes) (k n : Text) (j : JobType)
    → find_type d k ≡ none
    → k ≡ n
    → put d n j ≡ d ++ (k, j) ∷ []
put-name d k n j free same = ap (λ m. put d m j) (sym same) ∙ put-append d k j free

put_all-values : (d e : JobTypes) → IsKeyed (d ++ e) → put_all (values e) d ≡ d ++ e
unfolding put_all values
put_all-values d [] keyed = sym (append-nil d)
put_all-values d ((k, j) ∷ e) keyed =
    ap (put_all (values e))
      (put-name d k j.name j (find_type-before d k j e keyed) (values-key d k j e keyed))
    ∙ put_all-values (d ++ (k, j) ∷ []) e (rw (append_assoc d ((k, j) ∷ []) e) keyed)
    ∙ append_assoc d ((k, j) ∷ []) e

-- Every job type of the registry is one that its model accepts and leaves as it is.
abbrev pub AllValid : (ℕ → Bool) → JobTypes → Type 0
AllValid is_alnum [] = Unit
AllValid is_alnum ((k, j) ∷ d) = (to_config is_alnum j ≡ some (config_of j)) × AllValid is_alnum d

module _ (is_alnum : ℕ → Bool) (float_of : Text → Option ℕ) (lax_int : Json → Option ℕ)
    (keeps : (n : ℕ) → lax_int (int (pos n)) ≡ some n) where
  load_from-to_dict :
      (d e : JobTypes)
      → AllValid is_alnum e
      → load_from is_alnum float_of lax_int d (map to_dict (values e)) ≡ put_all (values e) d
  unfolding load_from values put_all
  load_from-to_dict d [] valid = refl
  load_from-to_dict d ((k, j) ∷ e) valid =
      rw (load_from, from_dict-to_dict is_alnum float_of lax_int keeps j valid.0)
        (load_from-to_dict (put d j.name j) e valid.1)

  load-save_keyed :
      (r : JobTypeRegistry) (legacy : Option (List Fields))
      → IsKeyed r.job_types
      → AllValid is_alnum r.job_types
      → load is_alnum float_of lax_int (some (save r).file) legacy ≡ save r
  unfolding load save
  load-save_keyed r legacy keyed valid =
      ap (λ d. record { job_types = d; file = map to_dict (values r.job_types) })
        (load_from-to_dict [] r.job_types valid ∙ put_all-values [] r.job_types keyed)

  load_from-IsKeyed :
      (d : JobTypes) (entries : List Fields)
      → IsKeyed d
      → IsKeyed (load_from is_alnum float_of lax_int d entries)
  unfolding load_from
  load_from-IsKeyed d [] keyed = keyed
  load_from-IsKeyed d (x ∷ entries) keyed =
      by_entry (from_dict is_alnum float_of lax_int x) (λ e. load_from-IsKeyed e entries)
    where
      by_entry :
          (o : Option JobType)
          → ((e : JobTypes) → IsKeyed e → IsKeyed (load_from is_alnum float_of lax_int e entries))
          → IsKeyed (elim o [
            | none ↦ load_from is_alnum float_of lax_int d entries
            | some j ↦ load_from is_alnum float_of lax_int (put d j.name j) entries
          ])
      by_entry none rest = rest d keyed
      by_entry (some j) rest = rest (put d j.name j) (put-IsKeyed d j keyed)

  load-IsKeyed :
      (file legacy : Option (List Fields))
      → IsKeyed (load is_alnum float_of lax_int file legacy).job_types
  unfolding load IsKeyed
  load-IsKeyed none none = tt
  load-IsKeyed none (some x) = load_from-IsKeyed [] x tt
  load-IsKeyed (some x) legacy = load_from-IsKeyed [] x tt

-- A request to the registry by a client.
pub data Request : Type 0 where
  registers : JobType → Bool → Request
  registers_many : List JobType → Bool → Request
  removes : Text → Request
  defaults : Request
  merges : List JobTypeConfig → Request

unfoldable pub request : Request → JobTypeRegistry → JobTypeRegistry
unfolding register register_many remove init_default_job_types merge_config_job_types
request (registers j persist) r = register j persist r
request (registers_many js persist) r = register_many js persist r
request (removes name) r = (remove name r).1
request defaults r = init_default_job_types r
request (merges cs) r = (merge_config_job_types cs r).1

unfoldable pub requests : List Request → JobTypeRegistry → JobTypeRegistry
unfolding request
requests [] r = r
requests (c ∷ cs) r = requests cs (request c r)

saved_if-types :
    (persist : Bool) (r : JobTypeRegistry) → (saved_if persist r).job_types ≡ r.job_types
unfolding saved_if save
saved_if-types true r = refl
saved_if-types false r = refl

register-IsKeyed :
    (j : JobType) (persist : Bool) (r : JobTypeRegistry)
    → IsKeyed r.job_types
    → IsKeyed (register j persist r).job_types
unfolding register saved_if save
register-IsKeyed j true r keyed = put-IsKeyed r.job_types j keyed
register-IsKeyed j false r keyed = put-IsKeyed r.job_types j keyed

register_many-IsKeyed :
    (js : List JobType) (persist : Bool) (r : JobTypeRegistry)
    → IsKeyed r.job_types
    → IsKeyed (register_many js persist r).job_types
unfolding register_many saved_if save
register_many-IsKeyed [] persist r keyed = keyed
register_many-IsKeyed (j ∷ js) true r keyed = put_all-IsKeyed (j ∷ js) r.job_types keyed
register_many-IsKeyed (j ∷ js) false r keyed = put_all-IsKeyed (j ∷ js) r.job_types keyed

init_types-IsKeyed :
    (js : List JobType) (r : JobTypeRegistry)
    → IsKeyed r.job_types
    → IsKeyed (init_types js r).job_types
unfolding init_types
init_types-IsKeyed [] r keyed = keyed
init_types-IsKeyed (j ∷ js) r keyed = elim (Bool-cases (is_some (get_type r j.name))) [
  | inl known ↦ rw (init_types, known) (init_types-IsKeyed js r keyed)
  | inr new ↦
      rw (init_types, new)
        (init_types-IsKeyed js (register j true r) (register-IsKeyed j true r keyed))
]

remove-IsKeyed :
    (name : Text) (r : JobTypeRegistry) → IsKeyed r.job_types → IsKeyed (remove name r).1.job_types
unfolding remove save
remove-IsKeyed name r keyed = elim (Bool-cases (is_some (find_type r.job_types name))) [
  | inl known ↦ rw (remove, known) (delete-IsKeyed r.job_types name keyed)
  | inr new ↦ rw (remove, new) keyed
]

request-IsKeyed :
    (c : Request) (r : JobTypeRegistry) → IsKeyed r.job_types → IsKeyed (request c r).job_types
unfolding request remove save init_default_job_types merge_config_job_types
request-IsKeyed (registers j persist) r keyed = register-IsKeyed j persist r keyed
request-IsKeyed (registers_many js persist) r keyed = register_many-IsKeyed js persist r keyed
request-IsKeyed (removes name) r keyed = remove-IsKeyed name r keyed
request-IsKeyed defaults r keyed = init_types-IsKeyed default_job_types r keyed
request-IsKeyed (merges []) r keyed = keyed
request-IsKeyed (merges (c ∷ cs)) r keyed =
    register_many-IsKeyed (map from_config (c ∷ cs)) false r keyed

requests-IsKeyed :
    (cs : List Request) (r : JobTypeRegistry)
    → IsKeyed r.job_types
    → IsKeyed (requests cs r).job_types
unfolding requests
requests-IsKeyed [] r keyed = keyed
requests-IsKeyed (c ∷ cs) r keyed = requests-IsKeyed cs (request c r) (request-IsKeyed c r keyed)

module _ (is_alnum : ℕ → Bool) (float_of : Text → Option ℕ) (lax_int : Json → Option ℕ)
    (keeps : (n : ℕ) → lax_int (int (pos n)) ≡ some n) where
  -- If pydantic keeps an int, and after a load and any requests each job type of the registry is
  -- one that its model accepts unchanged, then the registry that is loaded from the file saved by
  -- it is the registry as saved.
  pub load-save :
      (file legacy : Option (List Fields)) (cs : List Request)
      → AllValid is_alnum (requests cs (load is_alnum float_of lax_int file legacy)).job_types
      → load is_alnum float_of lax_int
          (some (save (requests cs (load is_alnum float_of lax_int file legacy))).file)
          legacy
        ≡ save (requests cs (load is_alnum float_of lax_int file legacy))
  load-save file legacy cs valid =
      load-save_keyed is_alnum float_of lax_int keeps
        (requests cs (load is_alnum float_of lax_int file legacy)) legacy
        (requests-IsKeyed cs (load is_alnum float_of lax_int file legacy)
          (load-IsKeyed is_alnum float_of lax_int keeps file legacy))
        valid
