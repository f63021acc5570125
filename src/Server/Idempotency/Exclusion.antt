-- ===== src/Server/Idempotency/Exclusion.antt =====
-- tako_vm/server/app.py: the lock of a key admits one task at a time, and is evicted after the last.
use tako_vm.Prelude.{
  ℕ, ◌+◌, ◌≤◌, String, Option, none, some, true, false, List, [], ◌∷◌, leb, if◌then◌else◌, str_eq,
  eq_iff, eq_refl, get, put, get-put, get-pop, ◌≡◌, refl, sym, ap, ◌∙◌, arith, Bool-cases,
  Option-cases, inl, inr,
}
use tako_vm.Server.Idempotency.{
  Task, outside, waiting, holding, leaving, IdempotencyLockManager, or_zero, register, deregister,
  Event, enters, locks_it, gives_up, releases, deregisters, enter, leave, step, run, all_outside,
  new_manager,
}
use tako_vm.Server.Idempotency.Locks.{
  refers, has_lock, is_inside, total, total-put, AllFit, AllFit-put, AllFit-evicted, inside_bound,
  none_inside,
}
use tako_vm.Server.Idempotency.Moves.{
  positive, less, IsExclusive, take_lock-IsExclusive, give_up-IsExclusive, release-IsExclusive,
  register-IsExclusive,
}

module _ (m : IdempotencyLockManager) (t : String) (v : IsExclusive m) where
  -- The last section, for a task that leaves.
  module _ (key : String) (at : get m.tasks t ≡ some (leaving key)) where
    left :
        (k : String)
        → total (refers k) (put m.tasks t outside) + (if str_eq key k then 1 else 0)
          ≡ total (refers k) m.tasks
    left k = omega (arith, total-put (refers k) t (leaving key) outside m.tasks at)

    single_left : (o : ℕ) → total (has_lock o) (put m.tasks t outside) ≤ 1
    single_left o =
        omega (arith, total-put (has_lock o) t (leaving key) outside m.tasks at, v.single o)

    last_one :
        leb (or_zero (get m.waiters key)) 1 ≡ true → total (refers key) (put m.tasks t outside) ≡ 0
    last_one few = ground (arith, few, v.counts key, left key, eq_refl key)

    more_left :
        leb (or_zero (get m.waiters key)) 1 ≡ false
        → get m.waiters key ≡ some (total (refers key) (put m.tasks t outside) + 1)
    more_left many = ground (arith, many, v.counts key, left key, eq_refl key)

    here :
        (k : String)
        → str_eq key k ≡ true
        → total (refers key) (put m.tasks t outside) ≡ total (refers k) (put m.tasks t outside)
    here k same = ap (λ j. total (refers j) (put m.tasks t outside)) ((eq_iff key k).0 same)

    deregister-IsExclusive : IsExclusive (deregister t key m)
    unfolding deregister
    deregister-IsExclusive = elim (Bool-cases (leb (or_zero (get m.waiters key)) 1)) [
      | inl few ↦ rw few (record {
        fits =
            AllFit-evicted m.locks key (put m.tasks t outside) (last_one few)
              (AllFit-put m.locks t outside m.tasks tt v.fits);
        counts = λ k. elim (Bool-cases (str_eq key k)) [
          | inl same ↦ rw (get-pop, same) (ap positive (sym (sym (here k same) ∙ last_one few)))
          | inr other ↦
              rw (get-pop, other) (v.counts k ∙ ap positive (omega (arith, rw other at (left k))))
        ];
        evicted = λ k none_. elim (Bool-cases (str_eq key k)) [
          | inl same ↦ rw (get-pop, same) refl
          | inr other ↦
              rw (get-pop, other) (v.evicted k (omega (arith, rw other at (left k), none_)))
        ];
        single = single_left;
      })
      | inr many ↦ rw many (record {
        fits = AllFit-put m.locks t outside m.tasks tt v.fits;
        counts = λ k. elim (Bool-cases (str_eq key k)) [
          | inl same ↦
              rw (get-put, same) (less (get m.waiters key) _ _ many (more_left many) (here k same))
          | inr other ↦
              rw (get-put, other) (v.counts k ∙ ap positive (omega (arith, rw other at (left k))))
        ];
        evicted = λ k none_. elim (Bool-cases (str_eq key k)) [
          | inl same ↦ absurd (ground (arith, many, more_left many, here k same, none_))
          | inr other ↦ v.evicted k (omega (arith, rw other at (left k), none_))
        ];
        single = single_left;
      })
    ]

  enter-IsExclusive :
      (key : String) (task : Option Task) → get m.tasks t ≡ task → IsExclusive (enter task t key m)
  unfolding register
  enter-IsExclusive key none at = v
  enter-IsExclusive key (some outside) at = register-IsExclusive m t v key at (get m.locks key) refl
  enter-IsExclusive key (some (holding k o)) at = v
  enter-IsExclusive key (some (waiting k o)) at = v
  enter-IsExclusive key (some (leaving k)) at = v

  leave-IsExclusive : (task : Option Task) → get m.tasks t ≡ task → IsExclusive (leave task t m)
  leave-IsExclusive none at = v
  leave-IsExclusive (some outside) at = v
  leave-IsExclusive (some (holding k o)) at = v
  leave-IsExclusive (some (waiting k o)) at = v
  leave-IsExclusive (some (leaving k)) at = deregister-IsExclusive k at

step-IsExclusive : (m : IdempotencyLockManager) (e : Event) → IsExclusive m → IsExclusive (step m e)
unfolding step
step-IsExclusive m (enters t key) v = enter-IsExclusive m t v key (get m.tasks t) refl
step-IsExclusive m (locks_it t) v = take_lock-IsExclusive m t v (get m.tasks t) refl
step-IsExclusive m (gives_up t) v = give_up-IsExclusive m t v (get m.tasks t) refl
step-IsExclusive m (releases t) v = release-IsExclusive m t v (get m.tasks t) refl
step-IsExclusive m (deregisters t) v = leave-IsExclusive m t v (get m.tasks t) refl

run-IsExclusive :
    (m : IdempotencyLockManager) (es : List Event) → IsExclusive m → IsExclusive (run m es)
unfolding run
run-IsExclusive m [] v = v
run-IsExclusive m (e ∷ es) v = run-IsExclusive (step m e) es (step-IsExclusive m e v)

outside_total : (f : Task → ℕ) (ts : List String) → f outside ≡ 0 → total f (all_outside ts) ≡ 0
unfolding total all_outside
outside_total f [] e = refl
outside_total f (t ∷ ts) e = omega (arith, e, outside_total f ts e)

outside_fit : (ts : List String) → AllFit [] (all_outside ts)
unfolding AllFit all_outside
outside_fit [] = tt
outside_fit (t ∷ ts) = (tt, outside_fit ts)

new-IsExclusive : (ts : List String) → IsExclusive (new_manager ts)
unfolding new_manager get
new-IsExclusive ts = record {
  fits = outside_fit ts;
  counts = λ k. ap positive (sym (outside_total (refers k) ts refl));
  evicted = λ k none_. refl;
  single = λ o. omega (arith, outside_total (has_lock o) ts refl);
}

-- After any sequence of events of any tasks on a new lock manager, one task at most is in the body
-- for a key, and when no task refers to a key the manager keeps neither a lock nor a count for it.
pub run-exclusive :
    (ts : List String) (es : List Event) (k : String)
    → let m = run (new_manager ts) es in
      (total (is_inside k) m.tasks ≤ 1)
      × (total (refers k) m.tasks ≡ 0 → (get m.locks k ≡ none) × (get m.waiters k ≡ none))
run-exclusive ts es k =
    let v = run-IsExclusive (new_manager ts) es (new-IsExclusive ts) in
    let m = run (new_manager ts) es in
    (
      elim (Option-cases (get m.locks k)) [
        | inl absent ↦ omega (arith, none_inside m.locks k m.tasks absent v.fits)
        | inr (o, found) ↦ omega (arith, inside_bound m.locks k o m.tasks found v.fits, v.single o)
      ],
      λ e. (v.evicted k e, v.counts k ∙ ap positive e),
    )
