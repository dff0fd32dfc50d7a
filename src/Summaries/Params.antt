-- ===== src/Summaries/Params.antt =====
-- engine/FunctionSummary.cpp: the merged sets of fields, parameter indices and null conditions.
use code_skeptic.Prelude.{
  ℕ, ◌≡◌, ◌⊎◌, inl, inr, ap, sym, subst, Bool, true, Bool-cases, ◌&&◌, ◌||◌, List, [], ◌∷◌, ◌==◌,
  arith,
}
use code_skeptic.Prelude.Int.{ℤ, pos, negsuc, eqb_ℤ}
use code_skeptic.Interval.{Interval, eqb, contains}
use code_skeptic.SummaryDiff.{FieldWriteSet}
use code_skeptic.SummaryDiff.Diff.{contains_field}
use code_skeptic.Summaries.{insert_field, insert_fields, merge_fields, agree_param}
use code_skeptic.Summaries.Calls.{Observed, FieldsClaim, OfParam}

insert_field-contains :
    (f g : ℕ) (fs : List ℕ)
    → (f == g || contains_field fs f) ≡ true
    → contains_field (insert_field g fs) f ≡ true
unfolding insert_field contains_field
insert_field-contains f g [] h = h
insert_field-contains f g (k ∷ fs) h = let rest = insert_field-contains f g fs in ground arith

insert_fields-left :
    (gs fs : List ℕ) (f : ℕ)
    → contains_field fs f ≡ true
    → contains_field (insert_fields gs fs) f ≡ true
unfolding insert_fields
insert_fields-left [] fs f h = h
insert_fields-left (g ∷ gs) fs f h =
    let first = insert_field-contains f g fs in
    insert_fields-left gs (insert_field g fs) f (ground arith)

insert_fields-right :
    (gs fs : List ℕ) (f : ℕ)
    → contains_field gs f ≡ true
    → contains_field (insert_fields gs fs) f ≡ true
unfolding insert_fields contains_field
insert_fields-right [] fs f h = cc
insert_fields-right (g ∷ gs) fs f h = elim (Bool-cases (f == g)) [
  | inl same ↦
      let first = insert_field-contains f g fs in
      insert_fields-left gs (insert_field g fs) f (ground arith)
  | inr other ↦ insert_fields-right gs (insert_field g fs) f (ground arith)
]

pub merge_fields-FieldsClaim :
    (c : Observed) (i : ℕ) (w v : FieldWriteSet)
    → FieldsClaim c i w ⊎ FieldsClaim c i v
    → FieldsClaim c i (merge_fields w v)
unfolding merge_fields
merge_fields-FieldsClaim c i w v h = elim (Bool-cases (w.known && v.known)) [
  | inl known ↦ rw known (λ e f k. elim h [
    | inl p ↦ insert_fields-left v.fields w.fields f (p (ground arith) f k)
    | inr q ↦ insert_fields-right v.fields w.fields f (q (ground arith) f k)
  ])
  | inr other ↦ rw other (λ e. cc)
]

pub eqb_ℤ-path : (a b : ℤ) → eqb_ℤ a b ≡ true → a ≡ b
eqb_ℤ-path (pos a) (pos b) h = ap pos (ground arith)
eqb_ℤ-path (pos a) (negsuc b) h = absurd (ground arith)
eqb_ℤ-path (negsuc a) (pos b) h = absurd (ground arith)
eqb_ℤ-path (negsuc a) (negsuc b) h = ap negsuc (ground arith)

pub agree_param-OfParam :
    (P : ℕ → Type 0) (defined : Bool) (a b : ℤ)
    → OfParam P a ⊎ OfParam P b
    → OfParam P (agree_param defined a b)
unfolding agree_param
agree_param-OfParam P defined a b h = elim (Bool-cases (eqb_ℤ a b && defined)) [
  | inl agreed ↦
      let e : a ≡ b = eqb_ℤ-path a b (ground arith) in
      rw agreed (elim h [ inl p ↦ p | inr q ↦ subst (OfParam P) (sym e) q ])
  | inr other ↦ rw other tt
]

pub eqb-contains : (a b : Interval) (v : ℤ) → eqb a b ≡ true → contains a v ≡ contains b v
unfolding eqb contains
eqb-contains a b v h = ground arith
