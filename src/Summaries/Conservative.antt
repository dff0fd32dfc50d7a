-- ===== src/Summaries/Conservative.antt =====
-- engine/FunctionSummary.cpp: mergeConservative claims no more than either summary.
use code_skeptic.Prelude.{
  ℕ, zero, suc, ◌≡◌, ◌⊎◌, inl, inr, refl, sym, subst, ◌∙◌, Option-cases, true, Bool-cases, List, [],
  ◌∷◌, get_elem?, length, ◌==◌, arith,
}
use code_skeptic.Prelude.Int.{ℤ, pos, negsuc, eqb_ℤ}
use code_skeptic.Interval.{eqb}
use code_skeptic.SummaryDiff.{
  FunctionSummary, ParamOwnership, opaque_effect, unknown_access, unknown_ownership,
  no_precondition, unknown_post, unknown_size, nullness_code, zeroness_code, return_ownership_code,
  effect_code, access_code, ownership_code, precondition_code, postcondition_code,
  allocator_size_code, or_else, param_ownership, param_effect, ownership_of_effect,
}
use code_skeptic.Summaries.{
  agree, pointwise, merge_params, merge_fields, merge_conservative, keeps_condition,
}
use code_skeptic.Summaries.Agreement.{
  agree-holds, merge_params-holds, Distinct, nullness_code-Distinct, zeroness_code-Distinct,
  return_ownership_code-Distinct, effect_code-Distinct, access_code-Distinct,
  ownership_code-Distinct, precondition_code-Distinct, postcondition_code-Distinct,
  allocator_size_code-Distinct,
}
use code_skeptic.Summaries.Params.{
  merge_fields-FieldsClaim, agree_param-OfParam, eqb_ℤ-path, eqb-contains,
}
use code_skeptic.Summaries.Calls.{
  Observed, Describes, NullnessClaim, ZeronessClaim, OwnedClaim, EffectClaim, AccessClaim,
  OwnershipClaim, FieldsClaim, PreconditionClaim, PostconditionClaim, SizeClaim, OfParam, OfEach,
  ZeroFrom, AliasOf, NonNullWithin, unknown_fields,
}

abbrev pub pick : {A B X Y : Type 0} → (A → X) → (B → Y) → A ⊎ B → X ⊎ Y
pick f g (inl a) = inl (f a)
pick f g (inr b) = inr (g b)

OfParam-map : {P Q : ℕ → Type 0} → ((i : ℕ) → P i → Q i) → (z : ℤ) → OfParam P z → OfParam Q z
OfParam-map k (pos i) h = k i h
OfParam-map k (negsuc i) h = tt

-- A vector whose entries agree or become weak.
agreed-OfEach :
    {A : Type 0} (P : ℕ → A → Type 0) (code : A → ℕ) (weak : A) (xs ys : List A)
    → Distinct code
    → ((i : ℕ) → P i weak)
    → OfEach P weak xs ⊎ OfEach P weak ys
    → OfEach P weak (merge_params (agree code weak) xs ys)
agreed-OfEach P code weak xs ys d w h i =
    merge_params-holds (P i) (w i) (agree code weak) (λ a b. agree-holds (P i) (w i) code a b d) i
      xs ys (pick (λ e. e i) (λ e. e i) h)

fields-OfEach :
    (c : Observed) (s t : FunctionSummary)
    → Describes s c ⊎ Describes t c
    → OfEach
        (FieldsClaim c)
        unknown_fields
        (merge_params merge_fields s.param_field_writes t.param_field_writes)
fields-OfEach c s t h i =
    merge_params-holds (FieldsClaim c i) (λ e. cc) merge_fields (merge_fields-FieldsClaim c i) i _ _
      (pick (λ d. d.field_writes i) (λ d. d.field_writes i) h)

keeps_condition-agree :
    (s t : FunctionSummary)
    → keeps_condition s t ≡ true
    → (eqb_ℤ s.null_cond_param t.null_cond_param ≡ true)
      × (eqb s.null_cond_range t.null_cond_range ≡ true)
unfolding keeps_condition
keeps_condition-agree s t k = (ground arith, ground arith)

-- Conditions that agree claim the same.
pub same_condition :
    (c : Observed) (s t : FunctionSummary)
    → eqb_ℤ s.null_cond_param t.null_cond_param ≡ true
    → eqb s.null_cond_range t.null_cond_range ≡ true
    → OfParam (NonNullWithin t.null_cond_range c) t.null_cond_param
    → OfParam (NonNullWithin s.null_cond_range c) s.null_cond_param
same_condition c s t e r h =
    let same = eqb_ℤ-path s.null_cond_param t.null_cond_param e in
    subst (OfParam (NonNullWithin s.null_cond_range c)) (sym same) (
      OfParam-map (λ i k inside. k (sym (eqb-contains _ _ (c.argument i) r) ∙ inside))
        t.null_cond_param h)

condition-OfParam :
    (c : Observed) (s t : FunctionSummary)
    → Describes s c ⊎ Describes t c
    → OfParam
        (NonNullWithin (merge_conservative s t).null_cond_range c)
        (merge_conservative s t).null_cond_param
unfolding merge_conservative
condition-OfParam c s t h = elim (Bool-cases (keeps_condition s t)) [
  | inl keeps ↦
      let agreed = keeps_condition-agree s t keeps in
      rw keeps (elim h [
        | inl d ↦ d.condition
        | inr d ↦ same_condition c s t agreed.0 agreed.1 d.condition
      ])
  | inr drops ↦ rw drops tt
]

-- Entries of vectors of one length, with what takes the place of a missing one.
fallback-holds :
    (P : ParamOwnership → Type 0) (weak : P unknown_ownership) (u v w : ParamOwnership)
    → (P u ⊎ P v → P w)
    → (i : ℕ) (xs ys : List ParamOwnership) → length xs ≡ length ys
    → P (or_else u (get_elem? xs i)) ⊎ P (or_else v (get_elem? ys i))
    → P (or_else w (get_elem? (pointwise (agree ownership_code unknown_ownership) xs ys) i))
unfolding pointwise
fallback-holds P weak u v w k i [] [] e h = k h
fallback-holds P weak u v w k i [] (b ∷ ys) e h = absurd (omega arith)
fallback-holds P weak u v w k i (a ∷ xs) [] e h = absurd (omega arith)
fallback-holds P weak u v w k zero (a ∷ xs) (b ∷ ys) e h =
    agree-holds P weak ownership_code a b ownership_code-Distinct h
fallback-holds P weak u v w k (suc i) (a ∷ xs) (b ∷ ys) e h =
    fallback-holds P weak u v w k i xs ys (omega arith) h

abbrev owner_or_effect : FunctionSummary → ℕ → ParamOwnership
owner_or_effect s i =
    or_else (ownership_of_effect (or_else opaque_effect (get_elem? s.params i)))
      (get_elem? s.param_ownerships i)

param_ownership-or_else : (s : FunctionSummary) (i : ℕ) → param_ownership s i ≡ owner_or_effect s i
unfolding param_ownership param_effect
param_ownership-or_else s i = elim (Option-cases (get_elem? s.param_ownerships i)) [
  | inl e ↦ rw (e, param_ownership) refl
  | inr (o, e) ↦ rw (e, param_ownership) refl
]

owners-merge :
    (c : Observed) (s t : FunctionSummary)
    → length s.param_ownerships ≡ length t.param_ownerships
    → Describes s c ⊎ Describes t c
    → (i : ℕ) → OwnershipClaim c i (param_ownership (merge_conservative s t) i)
unfolding merge_conservative ownership_of_effect merge_params
owners-merge c s t e h i =
    let P = OwnershipClaim c i in
    let same : (length s.param_ownerships == length t.param_ownerships) ≡ true = ground arith in
    let claimed =
      pick (λ d. subst P (param_ownership-or_else s i) (d.owners i))
        (λ d. subst P (param_ownership-or_else t i) (d.owners i)) h in
    let effect_of = λ (f : FunctionSummary). or_else opaque_effect (get_elem? f.params i) in
    let by_effect =
      merge_params-holds (λ x. P (ownership_of_effect x)) tt (agree effect_code opaque_effect)
        (λ a b.
          agree-holds (λ x. P (ownership_of_effect x)) tt effect_code a b effect_code-Distinct)
        i s.params t.params in
    let merged =
      fallback-holds P tt (ownership_of_effect (effect_of s)) (ownership_of_effect (effect_of t)) _
        by_effect i s.param_ownerships t.param_ownerships e claimed in
    let lifted : P (owner_or_effect (merge_conservative s t) i) = rw (same, merge_params) merged in
    subst P (sym (param_ownership-or_else (merge_conservative s t) i)) lifted

-- A call that one of two summaries describes is described by their conservative merge, if the two
-- have vectors of ownerships of one length.
pub merge_conservative_sound :
    (s t : FunctionSummary) (c : Observed)
    → length s.param_ownerships ≡ length t.param_ownerships
    → Describes s c ⊎ Describes t c
    → Describes (merge_conservative s t) c
unfolding merge_conservative
merge_conservative_sound s t c e h = record {
  nullness =
      agree-holds (λ v. NullnessClaim v c) tt nullness_code _ _ nullness_code-Distinct
        (pick (λ d. d.nullness) (λ d. d.nullness) h);
  zeroness =
      agree-holds (λ v. ZeronessClaim v c) tt zeroness_code _ _ zeroness_code-Distinct
        (pick (λ d. d.zeroness) (λ d. d.zeroness) h);
  ownership =
      agree-holds (λ v. OwnedClaim v c) tt return_ownership_code _ _ return_ownership_code-Distinct
        (pick (λ d. d.ownership) (λ d. d.ownership) h);
  effects =
      agreed-OfEach (EffectClaim c) effect_code opaque_effect _ _ effect_code-Distinct (λ i. tt)
        (pick (λ d. d.effects) (λ d. d.effects) h);
  accesses =
      agreed-OfEach (AccessClaim c) access_code unknown_access _ _ access_code-Distinct (λ i. tt)
        (pick (λ d. d.accesses) (λ d. d.accesses) h);
  owners = owners-merge c s t e h;
  field_writes = fields-OfEach c s t h;
  preconditions =
      agreed-OfEach (PreconditionClaim c) precondition_code no_precondition _ _
        precondition_code-Distinct (λ i. tt) (pick (λ d. d.preconditions) (λ d. d.preconditions) h);
  postconditions =
      agreed-OfEach (PostconditionClaim c) postcondition_code unknown_post _ _
        postcondition_code-Distinct (λ i. tt)
        (pick (λ d. d.postconditions) (λ d. d.postconditions) h);
  sizes =
      agreed-OfEach (SizeClaim c) allocator_size_code unknown_size _ _ allocator_size_code-Distinct
        (λ i. tt) (pick (λ d. d.sizes) (λ d. d.sizes) h);
  zero_from = agree_param-OfParam (ZeroFrom c) _ _ _ (pick (λ d. d.zero_from) (λ d. d.zero_from) h);
  null_from = agree_param-OfParam (ZeroFrom c) _ _ _ (pick (λ d. d.null_from) (λ d. d.null_from) h);
  alias = agree_param-OfParam (AliasOf c) _ _ _ (pick (λ d. d.alias) (λ d. d.alias) h);
  condition = condition-OfParam c s t h;
}
