-- ===== src/Versions/Reference.antt =====
-- tako_vm/version.py: the full reference of a stored version resolves to it.
use tako_vm.Prelude.{
  ℕ, zero, suc, none, some, Bool, true, false, ◌&&◌, ◌||◌, List, [], ◌∷◌, ◌++◌, length, take,
  if◌then◌else◌, ◌==◌, ◌≡◌, refl, ap, arith, ◌∙◌, length-take, Bool-cases, inl, inr, append_assoc,
}
use tako_vm.Security.{Text, has_char, all_chars, same_text}
use tako_vm.Texts.{codes, starts_with, split_once}
use tako_vm.Texts.Laws.{same_text_refl}
use tako_vm.Versions.{
  JobVersion, full_ref, short_digest, matching, found, ambiguous, only, is_hex, is_digest,
  get_version_by_digest, by_spec, resolve, get_latest_version,
}

split_once-append : (s t : Text) → has_char 64 s ≡ false → split_once 64 (s ++ 64 ∷ t) ≡ some (s, t)
unfolding split_once has_char
split_once-append [] t h = refl
split_once-append (c ∷ cs) t h = elim (Bool-cases (c == 64)) [
  | inl at ↦ ground (arith, at, h)
  | inr other ↦ rw (other, split_once-append cs t (ground (arith, other, h))) refl
]

starts_with-take : (n : ℕ) (s : Text) → starts_with (take n s) s ≡ true
unfolding starts_with
starts_with-take zero s = refl
starts_with-take (suc n) [] = refl
starts_with-take (suc n) (c ∷ cs) = ground (arith, starts_with-take n cs)

all_chars-take : (n : ℕ) (s : Text) → all_chars is_hex s ≡ true → all_chars is_hex (take n s) ≡ true
unfolding all_chars
all_chars-take zero s h = refl
all_chars-take (suc n) [] h = refl
all_chars-take (suc n) (c ∷ cs) h = ground (arith, h, all_chars-take n cs)

short_digest-IsDigest :
    (v : JobVersion)
    → length v.digest ≡ 64
    → all_chars is_hex v.digest ≡ true
    → (is_digest (short_digest v) ≡ true) × (length (short_digest v) ≡ 12)
unfolding is_digest short_digest
short_digest-IsDigest v size hex =
    let l : length (take 12 v.digest) ≡ 12 = omega (arith, length-take 12 v.digest, size) in
    (rw (l, all_chars-take 12 v.digest hex) refl, l)

matching-append :
    (test : JobVersion → Bool) (name : Text) (s t : List JobVersion)
    → matching test name (s ++ t) ≡ matching test name s ++ matching test name t
unfolding matching
matching-append test name [] t = refl
matching-append test name (v ∷ s) t = ground (arith, matching-append test name s t)

-- Whether a row has the job type's name and a digest that begins with the same twelve digits.
unfoldable pub clashes : JobVersion → List JobVersion → Bool
clashes v [] = false
clashes v (w ∷ ws) =
    (same_text w.job_type_name v.job_type_name && starts_with (take 12 v.digest) w.digest)
    || clashes v ws

clashes_lem :
    (v : JobVersion) (t : List JobVersion)
    → elim (matching (λ w. starts_with (short_digest v) w.digest) v.job_type_name t) [
      | [] ↦ false
      | w ∷ ws ↦ true
    ]
      ≡ clashes v t
unfolding clashes matching short_digest
clashes_lem v [] = refl
clashes_lem v (w ∷ ws) =
    elim (Bool-cases
      (same_text w.job_type_name v.job_type_name && starts_with (take 12 v.digest) w.digest)) [
        | inl same ↦ rw (matching, clashes, same) refl
        | inr other ↦ rw (matching, clashes, other) (clashes_lem v ws)
      ]

only-append :
    (a b : List JobVersion) (v : JobVersion)
    → only (a ++ v ∷ b) ≡ (
        if elim a [ [] ↦ false | w ∷ ws ↦ true ] || elim b [ [] ↦ false | w ∷ ws ↦ true ]
        then ambiguous
        else found v)
only-append [] [] v = refl
only-append [] (w ∷ b) v = refl
only-append (w ∷ []) b v = refl
only-append (w ∷ x ∷ a) b v = refl

matching_self :
    (v : JobVersion) (before after : List JobVersion)
    → matching (λ w. starts_with (short_digest v) w.digest) v.job_type_name (before ++ v ∷ after)
      ≡ matching (λ w. starts_with (short_digest v) w.digest) v.job_type_name before
        ++ v ∷ matching (λ w. starts_with (short_digest v) w.digest) v.job_type_name after
unfolding short_digest matching
matching_self v before after =
    matching-append (λ w. starts_with (short_digest v) w.digest) v.job_type_name before (v ∷ after)
    ∙ rw (matching, same_text_refl v.job_type_name, starts_with-take 12 v.digest) refl

get_version_by_digest-short :
    (t : List JobVersion) (v : JobVersion)
    → is_digest (short_digest v) ≡ true
    → length (short_digest v) ≡ 12
    → get_version_by_digest t v.job_type_name (short_digest v)
      ≡ only (matching (λ w. starts_with (short_digest v) w.digest) v.job_type_name t)
unfolding get_version_by_digest
get_version_by_digest-short t v valid size = rw (get_version_by_digest, valid, size) refl

by_spec-short :
    (t : List JobVersion) (v : JobVersion)
    → by_spec t v.job_type_name (codes "sha256:" ++ short_digest v)
      ≡ get_version_by_digest t v.job_type_name (short_digest v)
unfolding by_spec codes starts_with
by_spec-short t v = refl

-- For a stored version with a digest of 64 hexadecimal digits and a job type's name without `@`,
-- wherever it stands in the table, resolving its full_ref gives the name and that version, or the
-- error of an ambiguous digest if another row of the name has a digest with the same first twelve
-- digits.
pub resolve-full_ref :
    (v : JobVersion) (before after : List JobVersion)
    → has_char 64 v.job_type_name ≡ false
    → length v.digest ≡ 64
    → all_chars is_hex v.digest ≡ true
    → resolve (before ++ v ∷ after) (full_ref v)
      ≡ (v.job_type_name, if clashes v before || clashes v after then ambiguous else found v)
unfolding resolve full_ref codes
resolve-full_ref v before after plain size hex =
    let name : Text = v.job_type_name in
    let t : List JobVersion = before ++ v ∷ after in
    let valid = short_digest-IsDigest v size hex in
    let ref : Text = name ++ (codes "@sha256:" ++ short_digest v) in
    ap (resolve t) (append_assoc name (codes "@sha256:") (short_digest v))
    ∙ ap
        (λ o. elim o [
          | none ↦ (ref, get_latest_version t ref)
          | some (n, spec) ↦ (n, by_spec t n spec)
        ])
        (split_once-append name (codes "sha256:" ++ short_digest v) plain)
    ∙ ap (λ f. (name, f))
        (by_spec-short t v
          ∙ get_version_by_digest-short t v valid.0 valid.1
          ∙ ap only (matching_self v before after)
          ∙ only-append (matching (λ w. starts_with (short_digest v) w.digest) name before)
              (matching (λ w. starts_with (short_digest v) w.digest) name after) v
          ∙ ap (λ c. if c then ambiguous else found v)
              (rw (clashes_lem v before, clashes_lem v after) refl))
