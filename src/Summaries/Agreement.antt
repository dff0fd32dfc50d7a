-- ===== src/Summaries/Agreement.antt =====
-- engine/FunctionSummary.cpp: what a merged field claims, one of the two claimed.
use code_skeptic.Prelude.{
  ℕ, zero, suc, ◌≡◌, ◌⊎◌, inl, inr, sym, subst, Bool-cases, ==_eq, List, [], ◌∷◌, get_elem?, length,
  ◌==◌, arith,
}
use code_skeptic.SummaryDiff.{
  nullness_code, zeroness_code, return_ownership_code, effect_code, access_code, ownership_code,
  precondition_code, postcondition_code, allocator_size_code, or_else,
}
use code_skeptic.Summaries.{agree, pointwise, merge_params}

-- A code tells the values of its enumeration apart.
abbrev pub Distinct : {A : Type 0} → (A → ℕ) → Type 0
Distinct {A} code = (a b : A) → code a ≡ code b → a ≡ b

pub nullness_code-Distinct : Distinct nullness_code
nullness_code-Distinct a b e = ground arith

pub zeroness_code-Distinct : Distinct zeroness_code
zeroness_code-Distinct a b e = ground arith

pub return_ownership_code-Distinct : Distinct return_ownership_code
return_ownership_code-Distinct a b e = ground arith

pub effect_code-Distinct : Distinct effect_code
effect_code-Distinct a b e = ground arith

pub access_code-Distinct : Distinct access_code
access_code-Distinct a b e = ground arith

pub ownership_code-Distinct : Distinct ownership_code
ownership_code-Distinct a b e = ground arith

pub precondition_code-Distinct : Distinct precondition_code
precondition_code-Distinct a b e = ground arith

pub postcondition_code-Distinct : Distinct postcondition_code
postcondition_code-Distinct a b e = ground arith

pub allocator_size_code-Distinct : Distinct allocator_size_code
allocator_size_code-Distinct a b e = ground arith

-- A claim that the weak value makes trivially.
module _ {A : Type 0} {weak : A} (P : A → Type 0) (claims_nothing : P weak) where
  pub agree-holds : (code : A → ℕ) (a b : A) → Distinct code → P a ⊎ P b → P (agree code weak a b)
  unfolding agree
  agree-holds code a b d h = elim (Bool-cases (code a == code b)) [
    | inl same ↦
        let e : a ≡ b = d a b (==_eq (code a) (code b) same) in
        rw same (elim h [ inl p ↦ p | inr q ↦ subst P (sym e) q ])
    | inr other ↦ rw other claims_nothing
  ]

  -- An operation that keeps the claim, one of its arguments having it, keeps it entry by entry.
  module _ (f : A → A → A) (keeps : (a b : A) → P a ⊎ P b → P (f a b)) where
    pointwise-holds :
        (i : ℕ) (xs ys : List A)
        → P (or_else weak (get_elem? xs i)) ⊎ P (or_else weak (get_elem? ys i))
        → P (or_else weak (get_elem? (pointwise f xs ys) i))
    unfolding pointwise
    pointwise-holds i [] ys h = claims_nothing
    pointwise-holds i (a ∷ xs) [] h = claims_nothing
    pointwise-holds zero (a ∷ xs) (b ∷ ys) h = keeps a b h
    pointwise-holds (suc i) (a ∷ xs) (b ∷ ys) h = pointwise-holds i xs ys h

    pub merge_params-holds :
        (i : ℕ) (xs ys : List A)
        → P (or_else weak (get_elem? xs i)) ⊎ P (or_else weak (get_elem? ys i))
        → P (or_else weak (get_elem? (merge_params f xs ys) i))
    unfolding merge_params
    merge_params-holds i xs ys h = elim (Bool-cases (length xs == length ys)) [
      | inl same ↦ rw same (pointwise-holds i xs ys h)
      | inr other ↦ rw other claims_nothing
    ]
