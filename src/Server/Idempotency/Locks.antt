-- ===== src/Server/Idempotency/Locks.antt =====
-- tako_vm/server/app.py: the lock objects that the tasks of IdempotencyLockManager refer to.
use mathlib.Core.Option.{some-injective}
use tako_vm.Prelude.{
  ℕ, ◌+◌, ◌≤◌, String, none, some, false, [], ◌∷◌, if◌then◌else◌, str_eq, eq_iff, Dict, get, put,
  pop, get-put, get-pop, ◌≡◌, refl, sym, ap, ◌∙◌, arith, Bool-cases, inl, inr,
}
use tako_vm.Server.Idempotency.{Task, outside, waiting, holding, leaving, holds_lock, is_locked}

-- 1 if the task is registered for the key, holds the lock object, or holds it for the key.
abbrev pub refers : String → Task → ℕ
refers k outside = 0
refers k (waiting j o) = if str_eq j k then 1 else 0
refers k (holding j o) = if str_eq j k then 1 else 0
refers k (leaving j) = if str_eq j k then 1 else 0

abbrev pub has_lock : ℕ → Task → ℕ
has_lock o task = if holds_lock o task then 1 else 0

abbrev pub is_inside : String → Task → ℕ
is_inside k (holding j o) = if str_eq j k then 1 else 0
is_inside k _ = 0

-- A sum over the tasks.
unfoldable pub total : (Task → ℕ) → Dict Task → ℕ
total f [] = 0
total f ((t, task) ∷ d) = f task + total f d

pub total-put :
    (f : Task → ℕ) (t : String) (old new : Task) (d : Dict Task)
    → get d t ≡ some old
    → total f (put d t new) + f old ≡ total f d + f new
unfolding total get put
total-put f t old new [] e = absurd (ground (arith, e))
total-put f t old new ((u, task) ∷ d) e = elim (Bool-cases (str_eq u t)) [
  | inl same ↦
      let eq : task ≡ old = some-injective task old (rw same at e) in rw (same, eq) (omega arith)
  | inr other ↦ rw other (omega (arith, total-put f t old new d (rw other at e)))
]

-- A task's lock object is the one that its key has.
abbrev pub Fits : Dict ℕ → Task → Type 0
Fits locks (waiting k o) = get locks k ≡ some o
Fits locks (holding k o) = get locks k ≡ some o
Fits locks _ = Unit {0}

unfoldable pub AllFit : Dict ℕ → Dict Task → Type 0
AllFit locks [] = Unit
AllFit locks ((t, task) ∷ d) = Fits locks task × AllFit locks d

pub AllFit-put :
    (locks : Dict ℕ) (t : String) (new : Task) (d : Dict Task)
    → Fits locks new
    → AllFit locks d
    → AllFit locks (put d t new)
unfolding AllFit put
AllFit-put locks t new [] f fits = (f, tt)
AllFit-put locks t new ((u, task) ∷ d) f fits = elim (Bool-cases (str_eq u t)) [
  | inl same ↦ rw same (f, fits.1)
  | inr other ↦ rw other (fits.0, AllFit-put locks t new d f fits.1)
]

pub Fits-get :
    (locks : Dict ℕ) (t : String) (task : Task) (d : Dict Task)
    → get d t ≡ some task
    → AllFit locks d
    → Fits locks task
unfolding AllFit get
Fits-get locks t task [] e fits = absurd (ground (arith, e))
Fits-get locks t task ((u, x) ∷ d) e fits = elim (Bool-cases (str_eq u t)) [
  | inl same ↦ let eq : x ≡ task = some-injective x task (rw same at e) in rw (← eq) fits.0
  | inr other ↦ Fits-get locks t task d (rw other at e) fits.1
]

pub kept_lock :
    (locks : Dict ℕ) (k j : String) (o p : ℕ)
    → get locks k ≡ none
    → get locks j ≡ some p
    → get (put locks k o) j ≡ some p
kept_lock locks k j o p e f = elim (Bool-cases (str_eq k j)) [
  | inl same ↦ absurd (ground (arith, sym e ∙ ap (get locks) ((eq_iff k j).0 same) ∙ f))
  | inr other ↦ rw (get-put, other) f
]

-- A new lock under a key that has none, and the eviction of one that no task refers to.
pub AllFit-new :
    (locks : Dict ℕ) (k : String) (o : ℕ) (d : Dict Task)
    → get locks k ≡ none
    → AllFit locks d
    → AllFit (put locks k o) d
unfolding AllFit
AllFit-new locks k o [] e fits = tt
AllFit-new locks k o ((t, outside) ∷ d) e fits = (tt, AllFit-new locks k o d e fits.1)
AllFit-new locks k o ((t, leaving j) ∷ d) e fits = (tt, AllFit-new locks k o d e fits.1)
AllFit-new locks k o ((t, waiting j p) ∷ d) e fits =
    (kept_lock locks k j o p e fits.0, AllFit-new locks k o d e fits.1)
AllFit-new locks k o ((t, holding j p) ∷ d) e fits =
    (kept_lock locks k j o p e fits.0, AllFit-new locks k o d e fits.1)

popped :
    (locks : Dict ℕ) (k j : String) (p : ℕ)
    → str_eq j k ≡ false
    → get locks j ≡ some p
    → get (pop locks k) j ≡ some p
popped locks k j p e f = ground (arith, get-pop locks k j, eq_iff k j, eq_iff j k, e, f)

pub AllFit-evicted :
    (locks : Dict ℕ) (k : String) (d : Dict Task)
    → total (refers k) d ≡ 0
    → AllFit locks d
    → AllFit (pop locks k) d
unfolding AllFit total
AllFit-evicted locks k [] e fits = tt
AllFit-evicted locks k ((t, outside) ∷ d) e fits =
    (tt, AllFit-evicted locks k d (omega (arith, e)) fits.1)
AllFit-evicted locks k ((t, leaving j) ∷ d) e fits =
    (tt, AllFit-evicted locks k d (omega (arith, e)) fits.1)
AllFit-evicted locks k ((t, waiting j p) ∷ d) e fits = (
  popped locks k j p (ground (arith, e)) fits.0,
  AllFit-evicted locks k d (omega (arith, e)) fits.1,
)
AllFit-evicted locks k ((t, holding j p) ∷ d) e fits = (
  popped locks k j p (ground (arith, e)) fits.0,
  AllFit-evicted locks k d (omega (arith, e)) fits.1,
)

pub free_lock : (o : ℕ) (d : Dict Task) → is_locked o d ≡ false → total (has_lock o) d ≡ 0
unfolding is_locked total
free_lock o [] e = refl
free_lock o ((t, task) ∷ d) e = ground (arith, e, free_lock o d)

-- The tasks inside for a key hold its lock object.
pub inside_bound :
    (locks : Dict ℕ) (k : String) (o : ℕ) (d : Dict Task)
    → get locks k ≡ some o
    → AllFit locks d
    → total (is_inside k) d ≤ total (has_lock o) d
unfolding AllFit total
inside_bound locks k o [] e fits = omega arith
inside_bound locks k o ((t, outside) ∷ d) e fits = omega (arith, inside_bound locks k o d e fits.1)
inside_bound locks k o ((t, leaving j) ∷ d) e fits =
    omega (arith, inside_bound locks k o d e fits.1)
inside_bound locks k o ((t, waiting j p) ∷ d) e fits =
    omega (arith, inside_bound locks k o d e fits.1)
inside_bound locks k o ((t, holding j p) ∷ d) e fits = elim (Bool-cases (str_eq j k)) [
  | inl same ↦
      let eq : o ≡ p =
        some-injective o p (sym e ∙ ap (get locks) (sym ((eq_iff j k).0 same)) ∙ fits.0) in
      rw same (ground (arith, eq, inside_bound locks k o d e fits.1))
  | inr other ↦ rw other (ground (arith, inside_bound locks k o d e fits.1))
]

-- No task is inside for a key that has no lock.
pub none_inside :
    (locks : Dict ℕ) (k : String) (d : Dict Task)
    → get locks k ≡ none
    → AllFit locks d
    → total (is_inside k) d ≡ 0
unfolding AllFit total
none_inside locks k [] e fits = refl
none_inside locks k ((t, outside) ∷ d) e fits = omega (arith, none_inside locks k d e fits.1)
none_inside locks k ((t, leaving j) ∷ d) e fits = omega (arith, none_inside locks k d e fits.1)
none_inside locks k ((t, waiting j p) ∷ d) e fits = omega (arith, none_inside locks k d e fits.1)
none_inside locks k ((t, holding j p) ∷ d) e fits = elim (Bool-cases (str_eq j k)) [
  | inl same ↦ absurd (ground (arith, sym e ∙ ap (get locks) (sym ((eq_iff j k).0 same)) ∙ fits.0))
  | inr other ↦ rw other (omega (arith, none_inside locks k d e fits.1))
]
