-- ===== src/Baseline/Keys.antt =====
-- analyzer/Baseline.cpp: equality of keys, and how often a key occurs in a list.
use code_skeptic.Prelude.{
  ℕ, ◌+◌, ◌≡◌, refl, ap, subst, inl, inr, ◌∙◌, true, false, Bool-cases, List, [], ◌∷◌,
  if◌then◌else◌, arith,
}
use code_skeptic.Prelude.Text.{Text, text_eq}
use code_skeptic.Baseline.{insert_key, sorted_keys}

pub text_eq_refl : (k : Text) → text_eq k k ≡ true
unfolding text_eq
text_eq_refl [] = refl
text_eq_refl (c ∷ cs) = let ih = text_eq_refl cs in ground arith

pub equal_text : (k j : Text) → text_eq k j ≡ true → k ≡ j
unfolding text_eq
equal_text [] [] h = refl
equal_text [] (d ∷ ds) h = ground arith
equal_text (c ∷ cs) [] h = ground arith
equal_text (c ∷ cs) (d ∷ ds) h =
    let tail : cs ≡ ds = equal_text cs ds (ground arith) in let head : c ≡ d = ground arith in cc

text_neq_sym : (e k : Text) → text_eq e k ≡ false → text_eq k e ≡ false
unfolding text_eq
text_neq_sym [] [] h = h
text_neq_sym [] (d ∷ ds) h = refl
text_neq_sym (c ∷ cs) [] h = refl
text_neq_sym (c ∷ cs) (d ∷ ds) h = elim (Bool-cases (text_eq cs ds)) [
  | inl t ↦ ground arith
  | inr f ↦ let ih = text_neq_sym cs ds f in ground arith
]

-- A key that differs from one of two equal keys differs from the other.
pub other_key : (e k j : Text) → text_eq e k ≡ false → text_eq e j ≡ true → text_eq k j ≡ false
other_key e k j differs same =
    subst (λ (t : Text). text_eq k t ≡ false) (equal_text e j same) (text_neq_sym e k differs)

unfoldable pub occurrences : Text → List Text → ℕ
occurrences k [] = 0
occurrences k (j ∷ js) = (if text_eq j k then 1 else 0) + occurrences k js

occurrences-insert_key :
    (k j : Text) (js : List Text)
    → occurrences k (insert_key j js) ≡ (if text_eq j k then 1 else 0) + occurrences k js
unfolding occurrences insert_key
occurrences-insert_key k j [] = refl
occurrences-insert_key k j (i ∷ js) = let ih = occurrences-insert_key k j js in ground arith

pub occurrences-sorted_keys :
    (k : Text) (ks : List Text) → occurrences k (sorted_keys ks) ≡ occurrences k ks
unfolding occurrences sorted_keys
occurrences-sorted_keys k [] = refl
occurrences-sorted_keys k (j ∷ js) =
    occurrences-insert_key k j (sorted_keys js)
    ∙ ap (λ (n : ℕ). (if text_eq j k then 1 else 0) + n) (occurrences-sorted_keys k js)
