-- ===== src/Security/Requirement/Fuel.antt =====
-- tako_vm/security.py: the loops of validate_pip_requirement end, whatever the text.
use tako_vm.Prelude.{
  ℕ, zero, suc, ◌≤◌, ◌<◌, Bool, true, ◌&&◌, [], ◌∷◌, ◌≡◌, refl, ap, arith, length, Bool-cases, inl,
  inr,
}
use tako_vm.Security.{Text}
use tako_vm.Security.Requirement.{
  is_pip_name_char, is_pip_version_char, is_pip_operator_char, consume_token, has_token, tail,
  after_extra, extras_loop, after_version, clauses_loop,
}

consume_token-length : (test : ℕ → Bool) (s : Text) → length (consume_token test s) ≤ length s
unfolding consume_token
consume_token-length test [] = omega arith
consume_token-length test (c ∷ cs) = ground (arith, consume_token-length test cs)

token-shorter :
    (test : ℕ → Bool) (s : Text)
    → has_token test s ≡ true
    → length (consume_token test s) < length s
unfolding consume_token
token-shorter test [] h = absurd (ground (arith, h))
token-shorter test (c ∷ cs) h = rw h (omega (arith, consume_token-length test cs))

tail-length : (s : Text) → length (tail s) ≤ length s
tail-length [] = omega arith
tail-length (c ∷ cs) = omega arith

clauses_fuel :
    (n m : ℕ) (s : Text) → length s < n → length s < m → clauses_loop n s ≡ clauses_loop m s
unfolding clauses_loop
clauses_fuel zero m s l k = absurd (omega (arith, l))
clauses_fuel (suc n) zero s l k = absurd (omega (arith, k))
clauses_fuel (suc n) (suc m) [] l k = refl
clauses_fuel (suc n) (suc m) (c ∷ cs) l k =
    let version = consume_token is_pip_operator_char (c ∷ cs) in
    let after = consume_token is_pip_version_char version in
    elim (Bool-cases
      (has_token is_pip_operator_char (c ∷ cs) && has_token is_pip_version_char version)) [
        | inl both ↦
            let shorter : length (tail after) < length (c ∷ cs) = omega (
              arith,
              tail-length after,
              consume_token-length is_pip_version_char version,
              token-shorter is_pip_operator_char (c ∷ cs) (ground (arith, both)),
            ) in
            rw both (
              ap (after_version after) (
                clauses_fuel n m (tail after) (omega (arith, shorter, l))
                  (omega (arith, shorter, k))))
        | inr broken ↦ rw broken refl
      ]

extras_fuel : (n m : ℕ) (s : Text) → length s < n → length s < m → extras_loop n s ≡ extras_loop m s
unfolding extras_loop
extras_fuel zero m s l k = absurd (omega (arith, l))
extras_fuel (suc n) zero s l k = absurd (omega (arith, k))
extras_fuel (suc n) (suc m) s l k =
    let after = consume_token is_pip_name_char s in
    elim (Bool-cases (has_token is_pip_name_char s)) [
      | inl token ↦
          let shorter : length (tail after) < length s =
            omega (arith, tail-length after, token-shorter is_pip_name_char s token) in
          rw token (
            ap (after_extra after) (
              extras_fuel n m (tail after) (omega (arith, shorter, l)) (omega (arith, shorter, k))))
      | inr none_ ↦ rw none_ refl
    ]

-- With any fuel above the number of characters left, the loop over the version clauses and the
-- loop over the extras give what they give with one more than that number: they end by themselves.
pub loops_fuel :
    (n : ℕ) (s : Text)
    → length s < n
    → (clauses_loop n s ≡ clauses_loop (suc (length s)) s)
      × (extras_loop n s ≡ extras_loop (suc (length s)) s)
loops_fuel n s enough = (
  clauses_fuel n (suc (length s)) s enough (omega arith),
  extras_fuel n (suc (length s)) s enough (omega arith),
)
