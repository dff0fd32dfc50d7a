-- ===== src/SummaryDiff/Weakening.antt =====
-- engine/SummaryDiff.h: what it is for the summary of a function to become weaker, and that the
-- comparison of two summaries finds it.
use code_skeptic.Prelude.{
  ℕ, ◌<◌, ◌≡◌, ◌≢◌, ◌⊎◌, ◌↔◌, refl, Bool, true, false, ◌||◌, Option, List, ◌==◌, arith, inl, inr,
}
use code_skeptic.Prelude.Int.{ℤ, pos, ◌≤ℤ◌, eqb_ℤ}
use code_skeptic.SummaryDiff.{
  ReturnNullness, ReturnZeroness, ReturnOwnership, ParamEffect, ParamAccess, ParamOwnership,
  ParamPrecondition, ParamPostcondition, ParamAllocatorSize, FunctionSummary, never_null,
  always_zero, never_zero, unknown_return, reads_only, frees, unknown_access, unknown_ownership,
  unknown_post, sink, nullness_code, zeroness_code, return_ownership_code, effect_code, access_code,
  ownership_code, allocator_size_code, rn_strong, rz_strong, ro_strong, pe_strong, access_strong,
  ownership_strong, allocator_size_strong, alias_strong, param_effect, param_access,
  exact_param_field_writes, param_ownership, param_precondition, param_postcondition,
  param_allocator_size,
}
use code_skeptic.SummaryDiff.Diff.{
  classify_field, classify_precondition, classify_postcondition, classify_field_writes,
  return_directions, param_directions,
}
use code_skeptic.SummaryDiff.Gate.{
  is_weaker, any_weaker, obligation, classify_precondition-obligation, promise_kept,
  classify_field_writes-promise,
}

-- What a caller may lean on at the return is not so any more.
abbrev pub ReturnWeakened : FunctionSummary → FunctionSummary → Type 0
ReturnWeakened o n =
    ((o.return_nullness ≡ never_null) × (n.return_nullness ≢ o.return_nullness))
    ⊎ (((o.return_zeroness ≡ always_zero) ⊎ (o.return_zeroness ≡ never_zero))
        × (n.return_zeroness ≢ o.return_zeroness))
    ⊎ ((o.return_ownership ≢ unknown_return) × (n.return_ownership ≢ o.return_ownership))
    ⊎ ((pos 0 ≤ℤ o.return_alias_param) × (n.return_alias_param ≢ o.return_alias_param))

-- What a caller may lean on at a parameter is not so any more, or the caller owes more.
abbrev pub ParamWeakened : FunctionSummary → FunctionSummary → ℕ → Type 0
ParamWeakened o n i =
    (((param_effect o i ≡ reads_only) ⊎ (param_effect o i ≡ frees))
      × (param_effect n i ≢ param_effect o i))
    ⊎ (obligation (param_precondition o i) < obligation (param_precondition n i))
    ⊎ ((param_postcondition o i ≢ unknown_post)
        × (param_postcondition n i ≢ param_postcondition o i))
    ⊎ ((param_access o i ≢ unknown_access) × (param_access n i ≢ param_access o i))
    ⊎ ((param_ownership o i ≢ unknown_ownership) × (param_ownership n i ≢ param_ownership o i))
    ⊎ (promise_kept (exact_param_field_writes o i) (exact_param_field_writes n i) ≡ false)
    ⊎ ((param_allocator_size o i ≡ sink) × (param_allocator_size n i ≢ sink))

abbrev pub Weakened : FunctionSummary → FunctionSummary → Type 0
Weakened o n = ReturnWeakened o n ⊎ ((i : ℕ) × ParamWeakened o n i)

module _ {P Q : Type 0} where
  pub or_iff : (a b : Bool) → (a ≡ true) ↔ P → (b ≡ true) ↔ Q → ((a || b) ≡ true) ↔ (P ⊎ Q)
  or_iff true b h k = (λ e. inl (h.0 refl), λ s. refl)
  or_iff false b h k =
      (λ e. inr (k.0 e), λ s. elim s [ inl p ↦ absurd (cc (h.1 p)) | inr q ↦ k.1 q ])

last_iff : {P : Type 0} (a : Bool) → (a ≡ true) ↔ P → ((a || false) ≡ true) ↔ P
last_iff true h = h
last_iff false h = h

pub return_directions-any :
    (o n : FunctionSummary) → (any_weaker (return_directions o n) ≡ true) ↔ ReturnWeakened o n
unfolding return_directions classify_field
return_directions-any o n = or_iff _ _ (nullness o.return_nullness n.return_nullness) (
    or_iff _ _ (zeroness o.return_zeroness n.return_zeroness) (
      or_iff _ _ (ownership o.return_ownership n.return_ownership)
        (last_iff _ (alias o.return_alias_param n.return_alias_param))))
  where
    nullness :
        (a b : ReturnNullness)
        → (is_weaker
              (classify_field (nullness_code a == nullness_code b) (rn_strong a) (rn_strong b))
            ≡ true)
          ↔ ((a ≡ never_null) × (b ≢ a))
    nullness a b = ground arith

    zeroness :
        (a b : ReturnZeroness)
        → (is_weaker
              (classify_field (zeroness_code a == zeroness_code b) (rz_strong a) (rz_strong b))
            ≡ true)
          ↔ (((a ≡ always_zero) ⊎ (a ≡ never_zero)) × (b ≢ a))
    zeroness a b = ground arith

    ownership :
        (a b : ReturnOwnership)
        → (is_weaker (
              classify_field
                (return_ownership_code a == return_ownership_code b)
                (ro_strong a)
                (ro_strong b))
            ≡ true)
          ↔ ((a ≢ unknown_return) × (b ≢ a))
    ownership a b = ground arith

    alias :
        (a b : ℤ)
        → (is_weaker (classify_field (eqb_ℤ a b) (alias_strong a) (alias_strong b)) ≡ true)
          ↔ ((pos 0 ≤ℤ a) × (b ≢ a))
    alias a b = ground arith

module _ (o n : FunctionSummary) where
  pub param_directions-any :
      (i : ℕ) → (any_weaker (param_directions o n i) ≡ true) ↔ ParamWeakened o n i
  unfolding param_directions classify_field classify_postcondition
  param_directions-any i = or_iff _ _ (effect (param_effect o i) (param_effect n i)) (
      or_iff _ _ (owed (param_precondition o i) (param_precondition n i)) (
        or_iff _ _ (postcondition (param_postcondition o i) (param_postcondition n i)) (
          or_iff _ _ (access (param_access o i) (param_access n i)) (
            or_iff _ _ (ownership (param_ownership o i) (param_ownership n i)) (
              or_iff _ _ (promise (exact_param_field_writes o i) (exact_param_field_writes n i))
                (last_iff _ (size (param_allocator_size o i) (param_allocator_size n i))))))))
    where
      effect :
          (a b : ParamEffect)
          → (is_weaker (classify_field (effect_code a == effect_code b) (pe_strong a) (pe_strong b))
              ≡ true)
            ↔ (((a ≡ reads_only) ⊎ (a ≡ frees)) × (b ≢ a))
      effect a b = ground arith

      owed :
          (a b : ParamPrecondition)
          → (is_weaker (classify_precondition a b) ≡ true) ↔ (obligation a < obligation b)
      owed a b = rw (classify_precondition-obligation a b) (ground arith)

      postcondition :
          (a b : ParamPostcondition)
          → (is_weaker (classify_postcondition a b) ≡ true) ↔ ((a ≢ unknown_post) × (b ≢ a))
      postcondition a b = ground arith

      access :
          (a b : ParamAccess)
          → (is_weaker (
                classify_field (access_code a == access_code b) (access_strong a) (access_strong b))
              ≡ true)
            ↔ ((a ≢ unknown_access) × (b ≢ a))
      access a b = ground arith

      ownership :
          (a b : ParamOwnership)
          → (is_weaker (
                classify_field
                  (ownership_code a == ownership_code b)
                  (ownership_strong a)
                  (ownership_strong b))
              ≡ true)
            ↔ ((a ≢ unknown_ownership) × (b ≢ a))
      ownership a b = ground arith

      promise :
          (a b : Option (List ℕ))
          → (is_weaker (classify_field_writes a b) ≡ true) ↔ (promise_kept a b ≡ false)
      promise a b = rw (classify_field_writes-promise a b) (ground arith)

      size :
          (a b : ParamAllocatorSize)
          → (is_weaker (
                classify_field
                  (allocator_size_code a == allocator_size_code b)
                  (allocator_size_strong a)
                  (allocator_size_strong b))
              ≡ true)
            ↔ ((a ≡ sink) × (b ≢ sink))
      size a b = ground arith
