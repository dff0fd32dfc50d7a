-- ===== src/SummaryDiff/Diff.antt =====
-- engine/SummaryDiff.cpp: the comparison of two summaries, and of two maps of them.
use code_skeptic.Prelude.{
  ℕ, zero, suc, ◌+◌, max, Bool, true, false, not, ◌&&◌, ◌||◌, Option, none, some, List, [], ◌∷◌,
  ◌++◌, ◌==◌, ltb, if◌then◌else◌, length, is_nil,
}
use code_skeptic.Prelude.Int.{eqb_ℤ}
use code_skeptic.SummaryDiff.{
  ParamPrecondition, ParamPostcondition, FunctionSummary, param_effect, param_access,
  exact_param_field_writes, param_ownership, param_precondition, param_postcondition,
  param_allocator_size, nullness_code, zeroness_code, return_ownership_code, effect_code,
  access_code, ownership_code, precondition_code, postcondition_code, allocator_size_code,
  rn_strong, rz_strong, ro_strong, pe_strong, access_strong, ownership_strong,
  allocator_size_strong, alias_strong,
}

pub data Direction : Type 0 where
  weaker stronger sideways : Direction

pub data Relation : Type 0 where
  return_nullness return_zeroness return_ownership return_alias : Relation
  effect precondition postcondition access ownership field_writes allocator_size : ℕ → Relation

-- `classifyField`, by the equality of the values and whether each is a strong claim.
unfoldable pub classify_field : Bool → Bool → Bool → Option Direction
classify_field same old_strong new_strong =
    if same
    then none
    else if old_strong
    then some weaker
    else if new_strong
    then some stronger
    else some sideways

-- `classifyPrecondition`: a new obligation of the caller is a weakening.
unfoldable pub classify_precondition : ParamPrecondition → ParamPrecondition → Option Direction
classify_precondition old new =
    if precondition_code old == precondition_code new
    then none
    else if precondition_code old == 0 || (precondition_code old == 2 && precondition_code new == 1)
    then some weaker
    else some stronger

unfoldable pub classify_postcondition : ParamPostcondition → ParamPostcondition → Option Direction
classify_postcondition old new =
    if postcondition_code old == postcondition_code new
    then none
    else if postcondition_code old == 0
    then some stronger
    else some weaker

unfoldable pub contains_field : List ℕ → ℕ → Bool
contains_field [] f = false
contains_field (g ∷ gs) f = f == g || contains_field gs f

-- `std::includes`, on sets: whether the first holds every element of the second.
unfoldable pub includes : List ℕ → List ℕ → Bool
includes fields [] = true
includes fields (f ∷ fs) = contains_field fields f && includes fields fs

-- `classifyFieldWrites`; two sets are equal if each includes the other.
unfoldable pub classify_field_writes : Option (List ℕ) → Option (List ℕ) → Option Direction
classify_field_writes none none = none
classify_field_writes none (some new) = some stronger
classify_field_writes (some old) none = some weaker
classify_field_writes (some old) (some new) =
    if includes old new && includes new old
    then none
    else if includes new old || not (includes old new)
    then some weaker
    else some stronger

unfoldable pub return_directions :
    FunctionSummary → FunctionSummary → List (Relation × Option Direction)
return_directions o n =
    (
      return_nullness,
      classify_field (nullness_code o.return_nullness == nullness_code n.return_nullness)
          (rn_strong o.return_nullness) (rn_strong n.return_nullness),
    )
    ∷ (
      return_zeroness,
      classify_field (zeroness_code o.return_zeroness == zeroness_code n.return_zeroness)
          (rz_strong o.return_zeroness) (rz_strong n.return_zeroness),
    )
    ∷ (
      return_ownership,
      classify_field
          (return_ownership_code o.return_ownership == return_ownership_code n.return_ownership)
          (ro_strong o.return_ownership) (ro_strong n.return_ownership),
    )
    ∷ (
      return_alias,
      classify_field (eqb_ℤ o.return_alias_param n.return_alias_param)
          (alias_strong o.return_alias_param) (alias_strong n.return_alias_param),
    )
    ∷ []

unfoldable pub param_directions :
    FunctionSummary → FunctionSummary → ℕ → List (Relation × Option Direction)
param_directions o n i =
    (
      effect i,
      classify_field (effect_code (param_effect o i) == effect_code (param_effect n i))
          (pe_strong (param_effect o i)) (pe_strong (param_effect n i)),
    )
    ∷ (precondition i, classify_precondition (param_precondition o i) (param_precondition n i))
    ∷ (postcondition i, classify_postcondition (param_postcondition o i) (param_postcondition n i))
    ∷ (
      access i,
      classify_field (access_code (param_access o i) == access_code (param_access n i))
          (access_strong (param_access o i)) (access_strong (param_access n i)),
    )
    ∷ (
      ownership i,
      classify_field (ownership_code (param_ownership o i) == ownership_code (param_ownership n i))
          (ownership_strong (param_ownership o i)) (ownership_strong (param_ownership n i)),
    )
    ∷ (
      field_writes i,
      classify_field_writes (exact_param_field_writes o i) (exact_param_field_writes n i),
    )
    ∷ (
      allocator_size i,
      classify_field
          (allocator_size_code (param_allocator_size o i)
            == allocator_size_code (param_allocator_size n i))
          (allocator_size_strong (param_allocator_size o i))
          (allocator_size_strong (param_allocator_size n i)),
    )
    ∷ []

-- The greatest length of a vector of the summary.
unfoldable pub param_count : FunctionSummary → ℕ
param_count s = max (length s.params) (
    max (length s.param_preconditions) (
      max (length s.param_postconditions) (
        max (length s.param_accesses) (
          max (length s.param_ownerships)
            (max (length s.param_field_writes) (length s.param_allocator_sizes))))))

-- The relations of the parameters from `i` on.
unfoldable pub all_params :
    FunctionSummary → FunctionSummary → ℕ → ℕ → List (Relation × Option Direction)
all_params o n i zero = []
all_params o n i (suc k) = param_directions o n i ++ all_params o n (suc i) k

unfoldable pub directions : FunctionSummary → FunctionSummary → List (Relation × Option Direction)
directions o n = return_directions o n ++ all_params o n 0 (max (param_count o) (param_count n))

-- `FieldVerdict` and the detail text.
pub record Outcome : Type 0 where
  pub weakened : Bool
  pub strengthened : Bool
  pub changed : Bool
  pub detail : List Relation

unfoldable pub note : Outcome → Relation → Option Direction → Outcome
note a l none = a
note a l (some weaker) = record a { weakened = true; detail = a.detail ++ l ∷ [] }
note a l (some stronger) = record a { strengthened = true; detail = a.detail ++ l ∷ [] }
note a l (some sideways) = record a { changed = true; detail = a.detail ++ l ∷ [] }

unfoldable pub notes : Outcome → List (Relation × Option Direction) → Outcome
notes a [] = a
notes a (d ∷ ds) = notes (note a d.0 d.1) ds

abbrev pub no_outcome : Outcome
no_outcome = record { weakened = false; strengthened = false; changed = false; detail = [] }

unfoldable pub compare_summaries : FunctionSummary → FunctionSummary → Outcome
compare_summaries o n = notes no_outcome (directions o n)

pub data ChangeKind : Type 0 where
  added removed kind_weakened kind_strengthened kind_changed : ChangeKind

-- Numbers stand for the keys.
pub record SummaryChange : Type 0 where
  pub kind : ChangeKind
  pub key : ℕ
  pub detail : List Relation

-- `changes` holds the weakenings, and `others` what is appended to them at the end.
pub record DiffResult : Type 0 where
  pub changes : List SummaryChange
  pub others : List SummaryChange
  pub weakened : ℕ
  pub strengthened : ℕ
  pub changed : ℕ
  pub added_keys : ℕ
  pub removed_keys : ℕ

abbrev pub SummaryMap : Type 0
SummaryMap = List (ℕ × FunctionSummary)

unfoldable pub find : SummaryMap → ℕ → Option FunctionSummary
find [] k = none
find (e ∷ es) k = let later = find es k in if k == e.0 then some e.1 else later

abbrev pub change : ChangeKind → ℕ → List Relation → List SummaryChange
change kind k d = record { kind = kind; key = k; detail = d } ∷ []

unfoldable pub record_outcome : DiffResult → ℕ → Outcome → DiffResult
record_outcome r k o =
    if is_nil o.detail
    then r
    else if o.weakened
    then record r {
      weakened = r.weakened + 1;
      changes = r.changes ++ change kind_weakened k o.detail;
    }
    else if o.strengthened
    then record r {
      strengthened = r.strengthened + 1;
      others = r.others ++ change kind_strengthened k o.detail;
    }
    else record r { changed = r.changed + 1; others = r.others ++ change kind_changed k o.detail }

unfoldable pub visit_old : SummaryMap → DiffResult → ℕ × FunctionSummary → DiffResult
visit_old new r e = elim (find new e.0) [
  | none ↦ record r {
    removed_keys = r.removed_keys + 1;
    others = r.others ++ change removed e.0 [];
  }
  | some n ↦ record_outcome r e.0 (compare_summaries e.1 n)
]

unfoldable pub visit_all_old : SummaryMap → DiffResult → SummaryMap → DiffResult
visit_all_old new r [] = r
visit_all_old new r (e ∷ es) = visit_all_old new (visit_old new r e) es

unfoldable pub visit_new : SummaryMap → DiffResult → ℕ × FunctionSummary → DiffResult
visit_new old r e = elim (find old e.0) [
  | some o ↦ r
  | none ↦ record r { added_keys = r.added_keys + 1; others = r.others ++ change added e.0 [] }
]

unfoldable pub visit_all_new : SummaryMap → DiffResult → SummaryMap → DiffResult
visit_all_new old r [] = r
visit_all_new old r (e ∷ es) = visit_all_new old (visit_new old r e) es

abbrev pub no_result : DiffResult
no_result = record {
  changes = [];
  others = [];
  weakened = 0;
  strengthened = 0;
  changed = 0;
  added_keys = 0;
  removed_keys = 0;
}

unfoldable pub diff_summaries : SummaryMap → SummaryMap → DiffResult
diff_summaries old new =
    let r = visit_all_new old (visit_all_old new no_result old) new in
    record r { changes = r.changes ++ r.others; others = [] }

-- `reportSummaryDiff`: the exit code, on the two maps if their files could be read.
unfoldable pub report_summary_diff : Option SummaryMap → Option SummaryMap → Bool → ℕ
report_summary_diff none new gate = 2
report_summary_diff (some old) none gate = 2
report_summary_diff (some old) (some new) gate =
    if ltb 0 (diff_summaries old new).weakened then (if gate then 1 else 0) else 0
