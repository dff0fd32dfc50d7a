-- ===== src/Baseline/Budget.antt =====
-- analyzer/Baseline.cpp: what the counts of a baseline hold, and what one match takes from them.
use code_skeptic.Prelude.{
  ℕ, ◌+◌, ◌-◌, ◌≡◌, refl, ap, inl, inr, true, false, Bool-cases, Option, none, some, List, [], ◌∷◌,
  ◌==◌, ltb, if◌then◌else◌, arith,
}
use code_skeptic.Prelude.Text.{Text, text_eq}
use code_skeptic.Baseline.{Counts, increment, is_skipped, count_lines, put_first, consume}
use code_skeptic.Baseline.Keys.{equal_text, other_key, occurrences}

-- The number of findings with the key that the counts still suppress.
unfoldable pub budget_of : Counts → Text → ℕ
budget_of [] k = 0
budget_of (e ∷ es) k = let rest = budget_of es k in if text_eq e.0 k then e.1 else rest

budget_of-increment :
    (es : Counts) (l k : Text)
    → budget_of (increment l es) k ≡ (if text_eq l k then 1 else 0) + budget_of es k
unfolding budget_of increment
budget_of-increment [] l k = ground arith
budget_of-increment (e ∷ es) l k = elim (Bool-cases (text_eq e.0 l)) [
  | inl same ↦
      let key : text_eq e.0 k ≡ text_eq l k =
        ap (λ (t : Text). text_eq t k) (equal_text e.0 l same) in
      ground arith
  | inr differs ↦
      let ih = budget_of-increment es l k in
      elim (Bool-cases (text_eq e.0 k)) [
        | inl hit ↦ let miss = other_key e.0 l k differs hit in ground arith
        | inr miss ↦ ground arith
      ]
]

-- Counting lines adds the occurrences of every key that is not skipped.
pub budget_of-count_lines :
    (es : Counts) (ls : List Text) (k : Text)
    → is_skipped k ≡ false
    → budget_of (count_lines es ls) k ≡ occurrences k ls + budget_of es k
unfolding count_lines occurrences
budget_of-count_lines es [] k h = omega arith
budget_of-count_lines es (l ∷ ls) k h = elim (Bool-cases (is_skipped l)) [
  | inl skipped ↦ elim (Bool-cases (text_eq l k)) [
    | inl same ↦
        let clash : is_skipped l ≡ is_skipped k = ap is_skipped (equal_text l k same) in
        ground arith
    | inr differs ↦
        let ih = budget_of-count_lines es ls k h in rw (skipped, differs) (omega (arith, ih))
  ]
  | inr counted ↦
      let ih = budget_of-count_lines (increment l es) ls k h in
      let step = budget_of-increment es l k in rw counted (ground arith)
]

-- What a match of a key takes from the budget of each key.
abbrev pub IsCharged : Counts → Text → Option Counts → Type 0
IsCharged es k none = budget_of es k ≡ 0
IsCharged es k (some left) =
    (ltb 0 (budget_of es k) ≡ true)
    × ((j : Text) → budget_of left j ≡ budget_of es j - (if text_eq k j then 1 else 0))

consume_rest :
    (e : Text × ℕ) (es : Counts) (k : Text) (o : Option Counts)
    → text_eq e.0 k ≡ false
    → IsCharged es k o
    → IsCharged (e ∷ es) k (put_first e o)
unfolding budget_of put_first
consume_rest e es k none differs h = rw differs h
consume_rest e es k (some left) differs h = (
  rw differs h.0,
  λ (j : Text). elim (Bool-cases (text_eq e.0 j)) [
    | inl hit ↦ let miss = other_key e.0 k j differs hit in rw (hit, miss) (omega arith)
    | inr miss ↦ let rest = h.1 j in rw miss rest
  ],
)

-- A match takes one entry of its own key, and it fails only if none is left.
pub consume-IsCharged : (es : Counts) (k : Text) → IsCharged es k (consume es k)
unfolding consume budget_of
consume-IsCharged [] k = refl
consume-IsCharged (e ∷ es) k = elim (Bool-cases (text_eq e.0 k)) [
  | inr differs ↦ rw differs (consume_rest e es k (consume es k) differs (consume-IsCharged es k))
  | inl same ↦ elim (Bool-cases (e.1 == 0)) [
    | inl spent ↦ rw (same, spent) (rw same (ground arith))
    | inr left ↦
        rw (same, left)
          (
            rw same (ground arith),
            λ (j : Text).
                let key : text_eq e.0 j ≡ text_eq k j =
                  ap (λ (t : Text). text_eq t j) (equal_text e.0 k same) in
                ground arith,
          )
  ]
]
