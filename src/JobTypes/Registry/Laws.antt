-- ===== src/JobTypes/Registry/Laws.antt =====
-- tako_vm/job_types.py: each name of the registry stands once, for the job type of that name.
use tako_vm.Prelude.{
  none, some, List, [], ◌∷◌, ◌≡◌, refl, arith, ◌∙◌, if◌then◌else◌, inl, inr, Bool-cases,
}
use tako_vm.Security.{Text, same_text}
use tako_vm.Texts.Laws.{same_iff}
use tako_vm.JobTypes.{JobType}
use tako_vm.JobTypes.Registry.{JobTypes, put, find_type, delete, put_all}

-- The keys are the names of the values, and none occurs again.
unfoldable pub IsKeyed : JobTypes → Type 0
unfolding find_type
IsKeyed [] = Unit
IsKeyed ((k, j) ∷ d) = (k ≡ j.name) × (find_type d k ≡ none) × IsKeyed d

pub find_type-put :
    (d : JobTypes) (k n : Text) (j : JobType)
    → find_type (put d k j) n ≡ (if same_text k n then some j else find_type d n)
unfolding find_type put
find_type-put [] k n j = refl
find_type-put ((i, v) ∷ d) k n j =
    ground (arith, find_type-put d k n j, same_iff i k, same_iff i n, same_iff k n)

pub put-IsKeyed : (d : JobTypes) (j : JobType) → IsKeyed d → IsKeyed (put d j.name j)
unfolding put IsKeyed find_type
put-IsKeyed [] j keyed = (refl, refl, tt)
put-IsKeyed ((k, i) ∷ d) j keyed = elim (Bool-cases (same_text k j.name)) [
  | inl same ↦ rw same ((same_iff k j.name).0 same, keyed.1, keyed.2)
  | inr other ↦ rw other (
    keyed.0,
    find_type-put d j.name k j
        ∙ ground (arith, other, keyed.1, same_iff k j.name, same_iff j.name k),
    put-IsKeyed d j keyed.2,
  )
]

pub put_all-IsKeyed : (js : List JobType) (d : JobTypes) → IsKeyed d → IsKeyed (put_all js d)
unfolding put_all
put_all-IsKeyed [] d keyed = keyed
put_all-IsKeyed (j ∷ js) d keyed = put_all-IsKeyed js (put d j.name j) (put-IsKeyed d j keyed)

pub find_type-delete :
    (d : JobTypes) (k n : Text)
    → IsKeyed d
    → find_type (delete d k) n ≡ (if same_text k n then none else find_type d n)
unfolding find_type delete IsKeyed
find_type-delete [] k n keyed = ground arith
find_type-delete ((i, v) ∷ d) k n keyed =
    ground
      (arith, find_type-delete d k n keyed.2, keyed.1, same_iff i k, same_iff i n, same_iff k n)

pub delete-IsKeyed : (d : JobTypes) (k : Text) → IsKeyed d → IsKeyed (delete d k)
unfolding delete IsKeyed find_type
delete-IsKeyed [] k keyed = tt
delete-IsKeyed ((i, v) ∷ d) k keyed = elim (Bool-cases (same_text i k)) [
  | inl same ↦ rw same keyed.2
  | inr other ↦ rw other (
    keyed.0,
    find_type-delete d k i keyed.2 ∙ ground (arith, other, keyed.1, same_iff i k, same_iff k i),
    delete-IsKeyed d k keyed.2,
  )
]
