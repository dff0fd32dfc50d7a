-- ===== src/Summaries/Savable.antt =====
-- engine/FunctionSummary.cpp: the merges of savable summaries are savable.
use code_skeptic.Prelude.{
  ◌≡◌, refl, Bool, true, false, ◌&&◌, Option, none, some, ◌==◌, if◌then◌else◌, arith, Bool-cases,
  inl, inr,
}
use code_skeptic.Prelude.Int.{ℤ, pos, negsuc, eqb_ℤ}
use code_skeptic.Interval.{eqb}
use code_skeptic.SummaryDiff.{
  FunctionSummary, ReturnNullness, ReturnZeroness, nullness_code, zeroness_code, unknown_null,
}
use code_skeptic.Summaries.{
  agree, agree_param, keeps_condition, merge_conservative, merge_target_summaries, join_nullness,
  join_zeroness, conditioned, target_condition, param_of,
}
use code_skeptic.Summaries.ScalarTrip.{Indexes, IsSavable}

agree_param-Indexes :
    (defined other : Bool) (a b : ℤ) → Indexes other a → Indexes defined (agree_param defined a b)
unfolding agree_param
agree_param-Indexes defined other (negsuc n) b h =
    elim (Bool-cases (eqb_ℤ (negsuc n) b && defined)) [
      | inl kept ↦ rw kept tt
      | inr dropped ↦ rw dropped tt
    ]
agree_param-Indexes defined other (pos n) b h = elim (Bool-cases (eqb_ℤ (pos n) b && defined)) [
  | inl kept ↦ let side : defined ≡ true = ground arith in rw kept (h.0, side)
  | inr dropped ↦ rw dropped tt
]

-- The same, on a side that follows from the first summary's.
agree_param-follows :
    (defined side other : Bool) (a b : ℤ)
    → (side ≡ true → other ≡ true)
    → Indexes side a
    → Indexes other (agree_param defined a b)
unfolding agree_param
agree_param-follows defined side other (negsuc n) b k h =
    elim (Bool-cases (eqb_ℤ (negsuc n) b && defined)) [
      | inl kept ↦ rw kept tt
      | inr dropped ↦ rw dropped tt
    ]
agree_param-follows defined side other (pos n) b k h =
    elim (Bool-cases (eqb_ℤ (pos n) b && defined)) [
      | inl kept ↦ rw kept (h.0, k h.1)
      | inr dropped ↦ rw dropped tt
    ]

Indexes-map : (side other : Bool) (z : ℤ) → other ≡ true → Indexes side z → Indexes other z
Indexes-map side other (pos n) e h = (h.0, e)
Indexes-map side other (negsuc n) e h = tt

keeps_condition-maybe :
    (s t : FunctionSummary)
    → keeps_condition s t ≡ true
    → (nullness_code (agree nullness_code unknown_null s.return_nullness t.return_nullness) == 2)
      ≡ true
unfolding keeps_condition
keeps_condition-maybe s t h = ground arith

condition_kept :
    (s t : FunctionSummary)
    → IsSavable s
    → Indexes
        (nullness_code (merge_conservative s t).return_nullness == 2)
        (merge_conservative s t).null_cond_param
unfolding merge_conservative
condition_kept s t h = elim (Bool-cases (keeps_condition s t)) [
  | inl keeps ↦
      rw keeps (Indexes-map _ _ s.null_cond_param (keeps_condition-maybe s t keeps) h.condition)
  | inr drops ↦ rw drops tt
]

merge_conservative-IsSavable :
    (s t : FunctionSummary) → IsSavable s → IsSavable (merge_conservative s t)
unfolding merge_conservative
merge_conservative-IsSavable s t h = record {
  zero_from = agree_param-Indexes _ _ s.zero_from_param t.zero_from_param h.zero_from;
  null_from = agree_param-Indexes _ _ s.null_from_param t.null_from_param h.null_from;
  alias = agree_param-Indexes _ _ s.return_alias_param t.return_alias_param h.alias;
  condition = condition_kept s t h;
}

join_zeroness-unknown :
    (l r : ReturnZeroness)
    → (zeroness_code l == 0) ≡ true
    → (zeroness_code (join_zeroness l r) == 0) ≡ true
unfolding join_zeroness
join_zeroness-unknown l r h = ground arith

join_nullness-unknown :
    (l r : ReturnNullness)
    → (nullness_code l == 0) ≡ true
    → (nullness_code (join_nullness l r) == 0) ≡ true
unfolding join_nullness
join_nullness-unknown l r h = ground arith

abbrev SmallIndex : ℤ → Type 0
SmallIndex z = Indexes true z

small : (side : Bool) (z : ℤ) → Indexes side z → SmallIndex z
small side z h = Indexes-map side true z refl h

if-small :
    (b : Bool) (o p : Option FunctionSummary)
    → SmallIndex (param_of o)
    → SmallIndex (param_of p)
    → SmallIndex (param_of (if b then o else p))
if-small true o p h k = h
if-small false o p h k = k

conditioned-small :
    (s t : FunctionSummary) → IsSavable s → IsSavable t → SmallIndex (param_of (conditioned s t))
unfolding conditioned
conditioned-small s t h k =
    let left = small _ s.null_cond_param h.condition in
    let right = small _ t.null_cond_param k.condition in
    let l = nullness_code s.return_nullness in
    let r = nullness_code t.return_nullness in
    let same =
      eqb_ℤ s.null_cond_param t.null_cond_param && eqb s.null_cond_range t.null_cond_range in
    let third = if-small (l == 2 && (r == 2 && same)) (some s) none left tt in
    let second = if-small (l == 1 && r == 2) (some t) _ right third in
    if-small (l == 2 && r == 1) (some s) _ left second

target_kept :
    (s t : FunctionSummary)
    → IsSavable s
    → IsSavable t
    → Indexes
        (nullness_code (join_nullness s.return_nullness t.return_nullness) == 2)
        (param_of (target_condition s t))
unfolding target_condition
target_kept s t h k =
    elim (Bool-cases (nullness_code (join_nullness s.return_nullness t.return_nullness) == 2)) [
      | inl maybe ↦ rw maybe (conditioned-small s t h k)
      | inr other ↦ rw other tt
    ]

merge_target_summaries-IsSavable :
    (s t : FunctionSummary) → IsSavable s → IsSavable t → IsSavable (merge_target_summaries s t)
unfolding merge_target_summaries merge_conservative
merge_target_summaries-IsSavable s t h k = record {
  zero_from =
      agree_param-follows _ _ _ s.zero_from_param t.zero_from_param
        (join_zeroness-unknown s.return_zeroness t.return_zeroness) h.zero_from;
  null_from =
      agree_param-follows _ _ _ s.null_from_param t.null_from_param
        (join_nullness-unknown s.return_nullness t.return_nullness) h.null_from;
  alias = agree_param-Indexes _ _ s.return_alias_param t.return_alias_param h.alias;
  condition = target_kept s t h k;
}

-- Both merges of savable summaries are savable.
pub merges-IsSavable :
    (s t : FunctionSummary)
    → IsSavable s
    → IsSavable t
    → IsSavable (merge_conservative s t) × IsSavable (merge_target_summaries s t)
merges-IsSavable s t h k =
    (merge_conservative-IsSavable s t h, merge_target_summaries-IsSavable s t h k)
