-- ===== src/Prelude/Dicts.antt =====
-- Python's `dict` with text keys, in insertion order: an assignment to a present key keeps its
-- place, a new key goes to the end.
use Prim.Native.String.{String}
use mathlib.Core.Path.{◌≡◌, refl}
use mathlib.Core.Option.{Option, none, some}
use mathlib.Core.List.{List, [], ◌∷◌}
use native.Mathlib.Omega.{arith}
use text.Mathlib.Text.{◌==◌ as str_eq}
use text.Mathlib.TextEquality.{eq_iff}
use Prim.Native.Nat.{ℕ, ◌+◌, max}
use mathlib.Core.Logic.{inl, inr}
use tako_vm.Prelude.Tests.{if◌then◌else◌, Bool-cases}

abbrev pub Dict {ℓ} : Type ℓ → Type ℓ
Dict V = List (String × V)

module _ {ℓ} {V : Type ℓ} where
  unfoldable pub get : Dict V → String → Option V
  get [] k = none
  get ((j, v) ∷ d) k = if str_eq j k then some v else get d k

  unfoldable pub put : Dict V → String → V → Dict V
  put [] k v = (k, v) ∷ []
  put ((j, w) ∷ d) k v = if str_eq j k then (j, v) ∷ d else (j, w) ∷ put d k v

  unfoldable pub pop : Dict V → String → Dict V
  pop [] k = []
  pop ((j, w) ∷ d) k = let rest = pop d k in if str_eq j k then rest else (j, w) ∷ rest

  pub get-put :
      (d : Dict V) (k j : String) (v : V)
      → get (put d k v) j ≡ (if str_eq k j then some v else get d j)
  unfolding get put
  get-put [] k j v = refl
  get-put ((i, w) ∷ d) k j v = ground (arith, eq_iff k j, eq_iff i k, eq_iff i j, get-put d k j v)

  pub get-pop :
      (d : Dict V) (k j : String) → get (pop d k) j ≡ (if str_eq k j then none else get d j)
  unfolding get pop
  get-pop [] k j = ground arith
  get-pop ((i, w) ∷ d) k j = ground (arith, eq_iff k j, eq_iff i k, eq_iff i j, get-pop d k j)

  -- How often a dictionary lists a key; Python lists it once at most.
  unfoldable pub occurs : String → Dict V → ℕ
  occurs k [] = 0
  occurs k ((j, v) ∷ d) = (if str_eq j k then 1 else 0) + occurs k d

  pub occurs-put :
      (d : Dict V) (k j : String) (v : V)
      → occurs j (put d k v) ≡ (if str_eq k j then max 1 (occurs j d) else occurs j d)
  unfolding put occurs
  occurs-put [] k j v = ground arith
  occurs-put ((i, w) ∷ d) k j v = elim (Bool-cases (str_eq i k)) [
    | inl same ↦ rw same (ground (arith, eq_iff i k, eq_iff i j, eq_iff k j))
    | inr other ↦
        rw other (ground (arith, other, eq_iff i k, eq_iff i j, eq_iff k j, occurs-put d k j v))
  ]

  pub get-occurs : (d : Dict V) (k : String) → occurs k d ≡ 0 → get d k ≡ none
  unfolding get occurs
  get-occurs [] k e = refl
  get-occurs ((j, v) ∷ d) k e = ground (arith, e, get-occurs d k)

-- `{k: f(v) for k, v in d.items()}`
module _ {ℓ κ} {V : Type ℓ} {W : Type κ} where
  unfoldable pub map_values : (V → W) → Dict V → Dict W
  map_values f [] = []
  map_values f ((j, v) ∷ d) = (j, f v) ∷ map_values f d

  abbrev pub map_option : (V → W) → Option V → Option W
  map_option f none = none
  map_option f (some v) = some (f v)

  pub get-map_values :
      (f : V → W) (d : Dict V) (k : String) → get (map_values f d) k ≡ map_option f (get d k)
  unfolding get map_values
  get-map_values f [] k = refl
  get-map_values f ((j, v) ∷ d) k = ground (arith, get-map_values f d k)

  pub occurs-map_values :
      (f : V → W) (d : Dict V) (k : String) → occurs k (map_values f d) ≡ occurs k d
  unfolding occurs map_values
  occurs-map_values f [] k = refl
  occurs-map_values f ((j, v) ∷ d) k = omega (arith, occurs-map_values f d k)

pub ruleset dict_laws = (get-put, get-pop, get-map_values)
