-- ===== src/Summaries/Targets.antt =====
-- engine/FunctionSummary.cpp: mergeTargetSummaries claims no more than either target of a call.
use code_skeptic.Prelude.{
  ℕ, ◌≡◌, ◌≢◌, ◌⊎◌, inl, inr, true, Bool-cases, Option, length, ◌==◌, ◌&&◌, arith,
}
use code_skeptic.Prelude.Int.{ℤ, pos, negsuc, eqb_ℤ}
use code_skeptic.Interval.{Interval, eqb}
use code_skeptic.SummaryDiff.{
  FunctionSummary, ReturnNullness, ReturnZeroness, ParamAccess, nullness_code, param_ownership,
  param_effect,
}
use code_skeptic.Summaries.{
  merge_target_summaries, join_nullness, join_zeroness, join_access, conditioned, target_condition,
  param_of, range_of,
}
use code_skeptic.Summaries.Agreement.{merge_params-holds}
use code_skeptic.Summaries.Conservative.{pick, same_condition, merge_conservative_sound}
use code_skeptic.Summaries.Calls.{
  Observed, Describes, NullnessClaim, ZeronessClaim, AccessClaim, OfParam, NonNullWithin,
}

join_nullness-NullnessClaim :
    (c : Observed) (l r : ReturnNullness)
    → NullnessClaim l c ⊎ NullnessClaim r c
    → NullnessClaim (join_nullness l r) c
unfolding join_nullness
join_nullness-NullnessClaim c l r h = ground arith

join_access-AccessClaim :
    (c : Observed) (i : ℕ) (l r : ParamAccess)
    → AccessClaim c i l ⊎ AccessClaim c i r
    → AccessClaim c i (join_access l r)
unfolding join_access
join_access-AccessClaim c i l r h = ground arith

join_zeroness-ZeronessClaim :
    (c : Observed) (l r : ReturnZeroness)
    → ZeronessClaim l c ⊎ ZeronessClaim r c
    → ZeronessClaim (join_zeroness l r) c
unfolding join_zeroness
join_zeroness-ZeronessClaim c l r h = ground arith

is_never_null :
    (c : Observed) (v : ReturnNullness)
    → (nullness_code v == 1) ≡ true
    → NullnessClaim v c
    → c.result ≢ pos 0
is_never_null c v e h = ground arith

never_null-NonNullWithin :
    (c : Observed) (r : Interval) (z : ℤ) (s : FunctionSummary)
    → (nullness_code s.return_nullness == 1) ≡ true
    → Describes s c
    → OfParam (NonNullWithin r c) z
never_null-NonNullWithin c r (negsuc i) s e d = tt
never_null-NonNullWithin c r (pos i) s e d =
    λ inside. is_never_null c s.return_nullness e d.nullness

abbrev Conditions : Observed → Option FunctionSummary → Type 0
Conditions c o = OfParam (NonNullWithin (range_of o) c) (param_of o)

conditioned-Conditions :
    (c : Observed) (s t : FunctionSummary)
    → Describes s c ⊎ Describes t c
    → Conditions c (conditioned s t)
unfolding conditioned
conditioned-Conditions c s t h =
    let l = nullness_code s.return_nullness in
    let r = nullness_code t.return_nullness in
    let same =
      eqb_ℤ s.null_cond_param t.null_cond_param && eqb s.null_cond_range t.null_cond_range in
    elim (Bool-cases (l == 2 && r == 1)) [
      | inl left_maybe ↦
          let never : (r == 1) ≡ true = ground arith in
          rw left_maybe (elim h [
            | inl d ↦ d.condition
            | inr d ↦ never_null-NonNullWithin c s.null_cond_range s.null_cond_param t never d
          ])
      | inr other ↦ elim (Bool-cases (l == 1 && r == 2)) [
        | inl right_maybe ↦
            let never : (l == 1) ≡ true = ground arith in
            rw other (
              rw right_maybe (elim h [
                | inl d ↦ never_null-NonNullWithin c t.null_cond_range t.null_cond_param s never d
                | inr d ↦ d.condition
              ]))
        | inr other₂ ↦ elim (Bool-cases (l == 2 && (r == 2 && same))) [
          | inl both ↦
              let e : eqb_ℤ s.null_cond_param t.null_cond_param ≡ true = ground arith in
              let f : eqb s.null_cond_range t.null_cond_range ≡ true = ground arith in
              rw other (
                rw other₂ (
                  rw both (elim h [
                    | inl d ↦ d.condition
                    | inr d ↦ same_condition c s t e f d.condition
                  ])))
          | inr none_left ↦ rw other (rw other₂ (rw none_left tt))
        ]
      ]
    ]

target_condition-Conditions :
    (c : Observed) (s t : FunctionSummary)
    → Describes s c ⊎ Describes t c
    → Conditions c (target_condition s t)
unfolding target_condition
target_condition-Conditions c s t h =
    let joined = nullness_code (join_nullness s.return_nullness t.return_nullness) in
    elim (Bool-cases (joined == 2)) [
      | inl maybe ↦ rw maybe (conditioned-Conditions c s t h)
      | inr other ↦ rw other tt
    ]

-- A call that one of two summaries describes is described by the summary of both targets, if the
-- two have vectors of ownerships of one length.
pub merge_target_summaries_sound :
    (s t : FunctionSummary) (c : Observed)
    → length s.param_ownerships ≡ length t.param_ownerships
    → Describes s c ⊎ Describes t c
    → Describes (merge_target_summaries s t) c
unfolding merge_target_summaries param_ownership param_effect
merge_target_summaries_sound s t c e h =
    let d = merge_conservative_sound s t c e h in
    record {
      nullness =
          join_nullness-NullnessClaim c s.return_nullness t.return_nullness
            (pick (λ d. d.nullness) (λ d. d.nullness) h);
      zeroness =
          join_zeroness-ZeronessClaim c s.return_zeroness t.return_zeroness
            (pick (λ d. d.zeroness) (λ d. d.zeroness) h);
      ownership = d.ownership;
      effects = d.effects;
      accesses = λ i.
          merge_params-holds (AccessClaim c i) tt join_access (join_access-AccessClaim c i) i
            s.param_accesses t.param_accesses (pick (λ d. d.accesses i) (λ d. d.accesses i) h);
      owners = λ i. d.owners i;
      field_writes = d.field_writes;
      preconditions = d.preconditions;
      postconditions = d.postconditions;
      sizes = d.sizes;
      zero_from = d.zero_from;
      null_from = d.null_from;
      alias = d.alias;
      condition = target_condition-Conditions c s t h;
    }
