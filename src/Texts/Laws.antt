-- ===== src/Texts/Laws.antt =====
-- Python's `str`: equality of texts decided by `same_text`.
use tako_vm.Prelude.{true, [], ◌∷◌, ◌≡◌, refl, arith, ◌↔◌, ==_iff}
use tako_vm.Security.{Text, same_text}

pub same_text_refl : (s : Text) → same_text s s ≡ true
unfolding same_text
same_text_refl [] = refl
same_text_refl (c ∷ cs) = ground (arith, same_text_refl cs)

pub same_text→eq : (s t : Text) → same_text s t ≡ true → s ≡ t
unfolding same_text
same_text→eq [] [] h = refl
same_text→eq [] (b ∷ t) h = ground arith
same_text→eq (a ∷ s) [] h = ground arith
same_text→eq (a ∷ s) (b ∷ t) h = grind (arith, same_text→eq s t, ==_iff a b, h)

pub same_text_sym : (s t : Text) → same_text s t ≡ same_text t s
unfolding same_text
same_text_sym [] [] = refl
same_text_sym [] (b ∷ t) = refl
same_text_sym (a ∷ s) [] = refl
same_text_sym (a ∷ s) (b ∷ t) = ground (arith, same_text_sym s t)

pub same_iff : (s t : Text) → (same_text s t ≡ true) ↔ (s ≡ t)
same_iff s t = (same_text→eq s t, λ e. rw e (same_text_refl t))
