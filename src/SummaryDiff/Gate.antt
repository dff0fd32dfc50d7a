-- ===== src/SummaryDiff/Gate.antt =====
-- engine/SummaryDiff.cpp: what the gate reports is what the relations show.
use code_skeptic.Prelude.{
  ℕ, ◌≡◌, refl, ap, ◌∙◌, Bool, true, false, not, ◌&&◌, ◌||◌, Option, none, some, List, [], ◌∷◌,
  ◌++◌, ltb, if◌then◌else◌, is_nil, arith, Option-cases, inl, inr,
}
use code_skeptic.SummaryDiff.{
  ParamPrecondition, no_precondition, non_null_crash, non_null_rejected, FunctionSummary,
}
use code_skeptic.SummaryDiff.Diff.{
  Direction, weaker, stronger, sideways, Relation, classify_precondition, classify_field_writes,
  includes, directions, Outcome, note, notes, no_outcome, compare_summaries, DiffResult, SummaryMap,
  find, record_outcome, visit_old, visit_all_old, visit_new, visit_all_new, no_result,
  diff_summaries, report_summary_diff,
}

abbrev pub is_weaker : Option Direction → Bool
is_weaker (some weaker) = true
is_weaker _ = false

-- Some relation of the function became weaker.
abbrev pub any_weaker : List (Relation × Option Direction) → Bool
any_weaker [] = false
any_weaker (d ∷ ds) = is_weaker d.1 || any_weaker ds

abbrev pub function_weakened : FunctionSummary → Option FunctionSummary → Bool
function_weakened o none = false
function_weakened o (some n) = any_weaker (directions o n)

-- Some function that both harvests have became weaker.
abbrev pub any_weakened : SummaryMap → SummaryMap → Bool
any_weakened new [] = false
any_weakened new (e ∷ es) = function_weakened e.1 (find new e.0) || any_weakened new es

or_assoc : (a b c : Bool) → ((a || b) || c) ≡ (a || (b || c))
or_assoc a b c = ground arith

notes-weakened :
    (a : Outcome) (ds : List (Relation × Option Direction))
    → (notes a ds).weakened ≡ (a.weakened || any_weaker ds)
unfolding notes note
notes-weakened a [] = ground arith
notes-weakened a ((l, none) ∷ ds) = notes-weakened a ds
notes-weakened a ((l, some weaker) ∷ ds) = notes-weakened (note a l (some weaker)) ds ∙ ground arith
notes-weakened a ((l, some stronger) ∷ ds) = notes-weakened (note a l (some stronger)) ds
notes-weakened a ((l, some sideways) ∷ ds) = notes-weakened (note a l (some sideways)) ds

-- A flag is set only with a line of detail.
IsExplained : Outcome → Type 0
IsExplained a = (is_nil a.detail ≡ true) → a.weakened ≡ false

is_nil-append : {A : Type 0} (xs : List A) (x : A) → is_nil (xs ++ x ∷ []) ≡ false
is_nil-append [] x = refl
is_nil-append (y ∷ ys) x = refl

note-IsExplained :
    (a : Outcome) (l : Relation) (d : Option Direction) → IsExplained a → IsExplained (note a l d)
unfolding note IsExplained
note-IsExplained a l none h = h
note-IsExplained a l (some weaker) h = λ e. absurd (cc (is_nil-append a.detail l, e))
note-IsExplained a l (some stronger) h = λ e. absurd (cc (is_nil-append a.detail l, e))
note-IsExplained a l (some sideways) h = λ e. absurd (cc (is_nil-append a.detail l, e))

notes-IsExplained :
    (a : Outcome) (ds : List (Relation × Option Direction))
    → IsExplained a
    → IsExplained (notes a ds)
unfolding notes
notes-IsExplained a [] h = h
notes-IsExplained a (d ∷ ds) h =
    notes-IsExplained (note a d.0 d.1) ds (note-IsExplained a d.0 d.1 h)

compare-weakened :
    (o n : FunctionSummary) → (compare_summaries o n).weakened ≡ any_weaker (directions o n)
unfolding compare_summaries
compare-weakened o n = notes-weakened no_outcome (directions o n)

compare-IsExplained : (o n : FunctionSummary) → IsExplained (compare_summaries o n)
unfolding compare_summaries IsExplained
compare-IsExplained o n = notes-IsExplained no_outcome (directions o n) (λ e. refl)

-- Whether weakenings have been counted, after a function.
record_outcome-counts :
    (r : DiffResult) (k : ℕ) (o : Outcome)
    → IsExplained o
    → ltb 0 (record_outcome r k o).weakened ≡ (ltb 0 r.weakened || o.weakened)
unfolding record_outcome IsExplained
record_outcome-counts r k o h = ground arith

visit_old-counts :
    (new : SummaryMap) (r : DiffResult) (e : ℕ × FunctionSummary)
    → ltb 0 (visit_old new r e).weakened
      ≡ (ltb 0 r.weakened || function_weakened e.1 (find new e.0))
unfolding visit_old
visit_old-counts new r e = elim (Option-cases (find new e.0)) [
  | inl q ↦ rw (q, visit_old) (ground arith)
  | inr p ↦
      let (n, q) = p in
      rw (q, visit_old)
        (record_outcome-counts r e.0 (compare_summaries e.1 n) (compare-IsExplained e.1 n)
          ∙ ap (λ b. ltb 0 r.weakened || b) (compare-weakened e.1 n))
]

visit_all_old-counts :
    (new : SummaryMap) (r : DiffResult) (old : SummaryMap)
    → ltb 0 (visit_all_old new r old).weakened ≡ (ltb 0 r.weakened || any_weakened new old)
unfolding visit_all_old
visit_all_old-counts new r [] = ground arith
visit_all_old-counts new r (e ∷ es) =
    visit_all_old-counts new (visit_old new r e) es
    ∙ ap (λ b. b || any_weakened new es) (visit_old-counts new r e)
    ∙ or_assoc (ltb 0 r.weakened) (function_weakened e.1 (find new e.0)) (any_weakened new es)

visit_new-weakened :
    (old : SummaryMap) (r : DiffResult) (e : ℕ × FunctionSummary)
    → (visit_new old r e).weakened ≡ r.weakened
unfolding visit_new
visit_new-weakened old r e = elim (Option-cases (find old e.0)) [
  | inl q ↦ rw (q, visit_new) refl
  | inr p ↦ let (n, q) = p in rw (q, visit_new) refl
]

visit_all_new-weakened :
    (old : SummaryMap) (r : DiffResult) (new : SummaryMap)
    → (visit_all_new old r new).weakened ≡ r.weakened
unfolding visit_all_new
visit_all_new-weakened old r [] = refl
visit_all_new-weakened old r (e ∷ es) =
    visit_all_new-weakened old (visit_new old r e) es ∙ visit_new-weakened old r e

diff-counts :
    (old new : SummaryMap) → ltb 0 (diff_summaries old new).weakened ≡ any_weakened new old
unfolding diff_summaries
diff-counts old new =
    ap (λ n. ltb 0 n) (visit_all_new-weakened old (visit_all_old new no_result old) new)
    ∙ visit_all_old-counts new no_result old

-- The exit code on two files that can be read.
pub report_summary_diff-counts :
    (o n : SummaryMap) (gate : Bool)
    → report_summary_diff (some o) (some n) gate ≡ (if any_weakened n o && gate then 1 else 0)
unfolding report_summary_diff
report_summary_diff-counts o n gate = rw (diff-counts o n) (ground arith)

-- What the caller owes: nothing, an argument that would be rejected, or one that would crash.
abbrev pub obligation : ParamPrecondition → ℕ
obligation no_precondition = 0
obligation non_null_rejected = 1
obligation non_null_crash = 2

-- A precondition became weaker exactly if the caller owes more.
pub classify_precondition-obligation :
    (old new : ParamPrecondition)
    → is_weaker (classify_precondition old new) ≡ ltb (obligation old) (obligation new)
unfolding classify_precondition
classify_precondition-obligation no_precondition no_precondition = refl
classify_precondition-obligation no_precondition non_null_crash = refl
classify_precondition-obligation no_precondition non_null_rejected = refl
classify_precondition-obligation non_null_crash no_precondition = refl
classify_precondition-obligation non_null_crash non_null_crash = refl
classify_precondition-obligation non_null_crash non_null_rejected = refl
classify_precondition-obligation non_null_rejected no_precondition = refl
classify_precondition-obligation non_null_rejected non_null_crash = refl
classify_precondition-obligation non_null_rejected non_null_rejected = refl

-- The promised writes: every new field is an old one, if the old set is a promise at all.
abbrev pub promise_kept : Option (List ℕ) → Option (List ℕ) → Bool
promise_kept none new = true
promise_kept (some old) none = false
promise_kept (some old) (some new) = includes old new

-- The writes of a parameter became weaker exactly if the callee may write a field that it promised
-- not to write.
pub classify_field_writes-promise :
    (old new : Option (List ℕ))
    → is_weaker (classify_field_writes old new) ≡ not (promise_kept old new)
unfolding classify_field_writes
classify_field_writes-promise none none = refl
classify_field_writes-promise none (some new) = refl
classify_field_writes-promise (some old) none = refl
classify_field_writes-promise (some old) (some new) = ground arith
