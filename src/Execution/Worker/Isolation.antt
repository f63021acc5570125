-- ===== src/Execution/Worker/Isolation.antt =====
-- tako_vm/execution/worker.py: resolve_runtime and check_gvisor_available.
use tako_vm.Prelude.{
  Option, none, some, Bool, true, false, List, [], ◌∷◌, ◌≡◌, refl, arith, ◌≢◌, if◌then◌else◌,
}

-- container_runtime is 'runc' or not, security_mode is 'strict' or not.
pub data Runtime : Type 0 where
  runc runsc : Runtime

-- `docker info`: it fails or raises, or lists the runtimes, runsc among them or not.
pub data Probe : Type 0 where
  inconclusive : Probe
  listed : Bool → Probe

-- The cache _gvisor_available, and a probe for where it is empty.
unfoldable pub check_gvisor_available : Option Bool → Probe → Bool × Option Bool
check_gvisor_available (some known) probe = (known, some known)
check_gvisor_available none inconclusive = (false, none)
check_gvisor_available none (listed found) = (found, some found)

-- RuntimeUnavailableError is `none`.
unfoldable pub resolve_runtime :
    Runtime → (strict : Bool) → Option Bool → Probe → Option Runtime × Option Bool
unfolding check_gvisor_available
resolve_runtime runc strict cache probe = (if strict then none else some runc, cache)
resolve_runtime runsc strict cache probe =
    let checked = check_gvisor_available cache probe in
    (if checked.0 then some runsc else if strict then none else some runc, checked.1)

-- An execution: the configured runtime and mode, and what a probe would give now.
pub record Launch : Type 0 where
  pub requested : Runtime
  pub strict : Bool
  pub probe : Probe

-- The cache after a sequence of executions.
unfoldable pub cache_after : List Launch → Option Bool → Option Bool
unfolding resolve_runtime
cache_after [] cache = cache
cache_after (l ∷ ls) cache = cache_after ls (resolve_runtime l.requested l.strict cache l.probe).1

-- The answer of the first probe that is made and conclusive.
unfoldable pub first_listed : List Launch → Option Bool
first_listed [] = none
first_listed (l ∷ ls) =
    let rest = first_listed ls in
    elim l.requested [
      | runc ↦ rest
      | runsc ↦ elim l.probe [ inconclusive ↦ rest | listed found ↦ some found ]
    ]

next_known :
    (requested : Runtime) (strict : Bool) (probe : Probe) (known : Bool)
    → (resolve_runtime requested strict (some known) probe).1 ≡ some known
unfolding resolve_runtime
next_known runc strict probe known = refl
next_known runsc strict probe known = refl

cache_after-known : (ls : List Launch) (known : Bool) → cache_after ls (some known) ≡ some known
unfolding cache_after
cache_after-known [] known = refl
cache_after-known (l ∷ ls) known =
    rw (next_known l.requested l.strict l.probe known) (cache_after-known ls known)

cache_after-launch :
    (requested : Runtime) (strict : Bool) (probe : Probe) (ls : List Launch)
    → cache_after ls none ≡ first_listed ls
    → cache_after (record { requested = requested; strict = strict; probe = probe } ∷ ls) none
      ≡ first_listed (record { requested = requested; strict = strict; probe = probe } ∷ ls)
unfolding cache_after first_listed resolve_runtime
cache_after-launch runc strict probe ls rest = rest
cache_after-launch runsc strict inconclusive ls rest = rest
cache_after-launch runsc strict (listed found) ls rest = cache_after-known ls found

cache_after-first : (ls : List Launch) → cache_after ls none ≡ first_listed ls
unfolding cache_after first_listed
cache_after-first [] = refl
cache_after-first (l ∷ ls) =
    cache_after-launch l.requested l.strict l.probe ls (cache_after-first ls)

strict_never :
    (requested : Runtime) (cache : Option Bool) (probe : Probe)
    → (resolve_runtime requested true cache probe).0 ≢ some runc
unfolding resolve_runtime
strict_never requested cache probe h = ground arith

-- After any executions from an empty cache, the cache is the answer of the first probe that was
-- made and conclusive; in strict mode the runtime is never runc, whatever is configured and
-- probed; and once that answer listed runsc, a permissive execution configured for runsc gets it.
pub resolve_runtime_lem :
    (ls : List Launch) (requested : Runtime) (probe : Probe)
    → (cache_after ls none ≡ first_listed ls)
      × ((resolve_runtime requested true (cache_after ls none) probe).0 ≢ some runc)
      × (first_listed ls ≡ some true
          → (resolve_runtime runsc false (cache_after ls none) probe).0 ≡ some runsc)
unfolding resolve_runtime
resolve_runtime_lem ls requested probe = (
  cache_after-first ls,
  strict_never requested (cache_after ls none) probe,
  λ found. rw (resolve_runtime, cache_after-first ls, found) refl,
)
