-- ===== src/Server/Idempotency/Moves.antt =====
-- tako_vm/server/app.py: the steps of a task up to the last section keep the locks exclusive.
use tako_vm.Prelude.{
  ℕ, ◌+◌, ◌-◌, ◌≤◌, String, Option, none, some, false, ◌==◌, leb, if◌then◌else◌, str_eq, eq_iff,
  eq_refl, get, put, get-put, ◌≡◌, refl, sym, ap, ◌∙◌, arith, Bool-cases, ==_iff, inl, inr,
}
use tako_vm.Server.Idempotency.{
  Task, outside, waiting, holding, leaving, IdempotencyLockManager, is_locked, or_zero, set_task,
  register_at, take_lock, give_up, release,
}
use tako_vm.Server.Idempotency.Locks.{
  refers, has_lock, total, total-put, Fits, AllFit, AllFit-put, Fits-get, AllFit-new, free_lock,
}

abbrev pub positive : ℕ → Option ℕ
positive n = if n == 0 then none else some n

pub bump :
    (w : Option ℕ) (n m : ℕ) → w ≡ positive n → n ≡ m → some (or_zero w + 1) ≡ positive (m + 1)
bump w n m e f = ground (arith, e, f)

pub less :
    (w : Option ℕ) (n m : ℕ)
    → leb (or_zero w) 1 ≡ false
    → w ≡ some (n + 1)
    → n ≡ m
    → some (or_zero w - 1) ≡ positive m
less w n m many e f = ground (arith, many, e, f)

-- What holds between two steps.
pub record IsExclusive (m : IdempotencyLockManager) : Type 0 where
  pub fits : AllFit m.locks m.tasks
  pub counts : (k : String) → get m.waiters k ≡ positive (total (refers k) m.tasks)
  pub evicted : (k : String) → total (refers k) m.tasks ≡ 0 → get m.locks k ≡ none
  pub single : (o : ℕ) → total (has_lock o) m.tasks ≤ 1

module _ (m : IdempotencyLockManager) (t : String) (v : IsExclusive m) where
  -- A task moves on without a change of its registration.
  moves :
      (old new : Task)
      → get m.tasks t ≡ some old
      → ((k : String) → refers k new ≡ refers k old)
      → Fits m.locks new
      → ((o : ℕ) → total (has_lock o) m.tasks + has_lock o new ≤ 1 + has_lock o old)
      → IsExclusive (set_task t new m)
  moves old new at same fit free =
      let kept : (k : String) → total (refers k) (put m.tasks t new) ≡ total (refers k) m.tasks =
        λ k. omega (arith, total-put (refers k) t old new m.tasks at, same k) in
      record {
        fits = AllFit-put m.locks t new m.tasks fit v.fits;
        counts = λ k. v.counts k ∙ ap positive (sym (kept k));
        evicted = λ k none_. v.evicted k (sym (kept k) ∙ none_);
        single = λ o. omega (arith, total-put (has_lock o) t old new m.tasks at, free o);
      }

  take_lock-moves :
      (k : String) (o : ℕ)
      → get m.tasks t ≡ some (waiting k o)
      → is_locked o m.tasks ≡ false
      → IsExclusive (set_task t (holding k o) m)
  take_lock-moves k o at free =
      moves (waiting k o) (holding k o) at (λ j. refl)
        (Fits-get m.locks t (waiting k o) m.tasks at v.fits)
        (λ p. elim (Bool-cases (p == o)) [
          | inl same ↦ rw ((==_iff p o).0 same) (ground (arith, free_lock o m.tasks free))
          | inr other ↦ ground (arith, other, v.single p)
        ])

  lock_taken :
      (k : String) (o : ℕ)
      → get m.tasks t ≡ some (waiting k o)
      → IsExclusive (take_lock (some (waiting k o)) t m)
  lock_taken k o at = elim (Bool-cases (is_locked o m.tasks)) [
    | inl busy ↦ rw busy v
    | inr free ↦ rw free (take_lock-moves k o at free)
  ]

  pub take_lock-IsExclusive :
      (task : Option Task) → get m.tasks t ≡ task → IsExclusive (take_lock task t m)
  take_lock-IsExclusive none at = v
  take_lock-IsExclusive (some outside) at = v
  take_lock-IsExclusive (some (holding k o)) at = v
  take_lock-IsExclusive (some (leaving k)) at = v
  take_lock-IsExclusive (some (waiting k o)) at = lock_taken k o at

  pub give_up-IsExclusive :
      (task : Option Task) → get m.tasks t ≡ task → IsExclusive (give_up task t m)
  give_up-IsExclusive none at = v
  give_up-IsExclusive (some outside) at = v
  give_up-IsExclusive (some (holding k o)) at = v
  give_up-IsExclusive (some (leaving k)) at = v
  give_up-IsExclusive (some (waiting k o)) at =
      moves (waiting k o) (leaving k) at (λ j. refl) tt (λ p. omega (arith, v.single p))

  pub release-IsExclusive :
      (task : Option Task) → get m.tasks t ≡ task → IsExclusive (release task t m)
  release-IsExclusive none at = v
  release-IsExclusive (some outside) at = v
  release-IsExclusive (some (waiting k o)) at = v
  release-IsExclusive (some (leaving k)) at = v
  release-IsExclusive (some (holding k o)) at =
      moves (holding k o) (leaving k) at (λ j. refl) tt (λ p. omega (arith, v.single p))

  -- The first section, for a task outside.
  module _ (key : String) (at : get m.tasks t ≡ some outside) where
    entered :
        (o : ℕ) (k : String)
        → total (refers k) (put m.tasks t (waiting key o))
          ≡ total (refers k) m.tasks + (if str_eq key k then 1 else 0)
    entered o k = omega (arith, total-put (refers k) t outside (waiting key o) m.tasks at)

    counted :
        (o : ℕ) (k : String)
        → get (put m.waiters key (or_zero (get m.waiters key) + 1)) k
          ≡ positive (total (refers k) (put m.tasks t (waiting key o)))
    counted o k = elim (Bool-cases (str_eq key k)) [
      | inl same ↦
          let e : total (refers key) m.tasks ≡ total (refers k) m.tasks =
            ap (λ j. total (refers j) m.tasks) ((eq_iff key k).0 same) in
          rw (get-put, same, entered o k, same)
            (bump (get m.waiters key) (total (refers key) m.tasks) (total (refers k) m.tasks)
              (v.counts key) e)
      | inr other ↦ rw (get-put, other, entered o k, other) (v.counts k ∙ ap positive (omega arith))
    ]

    pub register-IsExclusive :
        (lock : Option ℕ) → get m.locks key ≡ lock → IsExclusive (register_at lock t key m)
    register-IsExclusive none e = record {
      fits =
          AllFit-put _ t (waiting key m.next_lock) m.tasks (rw (get-put, eq_refl key) refl)
            (AllFit-new m.locks key m.next_lock m.tasks e v.fits);
      counts = counted m.next_lock;
      evicted = λ k none_. elim (Bool-cases (str_eq key k)) [
        | inl same ↦ absurd (omega (arith, rw same at (entered m.next_lock k), none_))
        | inr other ↦
            rw (get-put, other) (v.evicted k (omega (arith, entered m.next_lock k, none_)))
      ];
      single = λ o. omega (
        arith,
        total-put (has_lock o) t outside (waiting key m.next_lock) m.tasks at,
        v.single o,
      );
    }
    register-IsExclusive (some lock) e = record {
      fits = AllFit-put _ t (waiting key lock) m.tasks e v.fits;
      counts = counted lock;
      evicted = λ k none_. v.evicted k (omega (arith, entered lock k, none_));
      single = λ o.
          omega (arith, total-put (has_lock o) t outside (waiting key lock) m.tasks at, v.single o);
    }
