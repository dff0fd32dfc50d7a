-- ===== src/Baseline/Filter.antt =====
-- analyzer/Baseline.cpp: how often each key stays after the filter.
use code_skeptic.Prelude.{
  ℕ, ◌-◌, ◌≡◌, refl, ap, subst, inl, inr, ◌∙◌, true, false, Bool-cases, none, some, Option-cases,
  List, [], ◌∷◌, map, arith, All,
}
use code_skeptic.Prelude.Text.{Text, text_eq}
use code_skeptic.Baseline.{
  Diagnostic, key_v1, key_v2, Counts, consume, consume_either, remove_known, filter, write, load,
  is_skipped, count_lines, sorted_keys,
}
use code_skeptic.Baseline.Keys.{equal_text, occurrences, occurrences-sorted_keys}
use code_skeptic.Baseline.Budget.{budget_of, budget_of-count_lines, IsCharged, consume-IsCharged}

-- No finding matches the counts by its key of the first version.
abbrev pub NoOldMatch : Counts → List Diagnostic → Type 0
NoOldMatch es ds = All (λ (d : Diagnostic). budget_of es (key_v1 d) ≡ 0) ds

NoOldMatch-left :
    (es left : Counts) (k : Text) (ds : List Diagnostic)
    → IsCharged es k (some left)
    → NoOldMatch es ds
    → NoOldMatch left ds
NoOldMatch-left es left k [] charged h = tt
NoOldMatch-left es left k (d ∷ ds) charged h = (
  let taken = charged.1 (key_v1 d) in let before = h.0 in omega arith,
  NoOldMatch-left es left k ds charged h.1,
)

consume-none : (es : Counts) (k : Text) → budget_of es k ≡ 0 → consume es k ≡ none
consume-none es k h = elim (Option-cases (consume es k)) [
  | inl e ↦ e
  | inr hit ↦
      let charged = subst (IsCharged es k) hit.1 (consume-IsCharged es k) in
      let some_left = charged.0 in ground arith
]

-- The filter consults the second key if the first finds nothing.
consume_either-v2 :
    (es : Counts) (v1 v2 : Text) → budget_of es v1 ≡ 0 → consume_either es v1 v2 ≡ consume es v2
unfolding consume_either
consume_either-v2 es v1 v2 h = rw (consume-none es v1 h, consume_either) refl

same_budget : (es : Counts) (j k : Text) → text_eq j k ≡ true → budget_of es j ≡ budget_of es k
same_budget es j k same = ap (budget_of es) (equal_text j k same)

-- The findings that stay have each key as often as the list has it beyond the budget.
remove_known-occurrences :
    (files : Text → List Text) (es : Counts) (ds : List Diagnostic) (k : Text)
    → NoOldMatch es ds
    → occurrences k (map (key_v2 files) (remove_known files es ds))
      ≡ occurrences k (map (key_v2 files) ds) - budget_of es k
unfolding occurrences remove_known
remove_known-occurrences files es [] k h = omega arith
remove_known-occurrences files es (d ∷ ds) k h =
    let v2 = key_v2 files d in
    let either : consume_either es (key_v1 d) v2 ≡ consume es v2 =
      consume_either-v2 es (key_v1 d) v2 h.0 in
    elim (Option-cases (consume es v2)) [
      | inl miss ↦
          let charged = subst (IsCharged es v2) miss (consume-IsCharged es v2) in
          let ih = remove_known-occurrences files es ds k h.1 in
          rw (either ∙ miss, remove_known)
            (elim (Bool-cases (text_eq v2 k)) [
              | inl same ↦
                  let none_left = same_budget es v2 k same in
                  let spent : budget_of es v2 ≡ 0 = charged in rw same (omega arith)
              | inr differs ↦ rw differs (omega arith)
            ])
      | inr hit ↦
          let left = hit.0 in
          let charged : IsCharged es v2 (some left) =
            subst (IsCharged es v2) hit.1 (consume-IsCharged es v2) in
          let taken = charged.1 k in
          let some_left = charged.0 in
          let ih =
            remove_known-occurrences files left ds k (NoOldMatch-left es left v2 ds charged h.1) in
          rw (either ∙ hit.1, remove_known)
            (elim (Bool-cases (text_eq v2 k)) [
              | inl same ↦ let equal_budget = same_budget es v2 k same in rw same (ground arith)
              | inr differs ↦ rw differs (ground arith)
            ])
    ]

-- What a written baseline holds once it is loaded: each key as often as the findings had it.
budget_of-load-write :
    (files : Text → List Text) (ds : List Diagnostic) (k : Text)
    → is_skipped k ≡ false
    → budget_of (load (some (write files ds))).1 k ≡ occurrences k (map (key_v2 files) ds)
unfolding load write count_lines budget_of is_skipped
budget_of-load-write files ds k h =
    let counted = budget_of-count_lines [] (sorted_keys (map (key_v2 files) ds)) k h in
    let order = occurrences-sorted_keys k (map (key_v2 files) ds) in omega (arith, counted, order)

filter-occurrences :
    (files : Text → List Text) (es : Counts) (ds : List Diagnostic) (k : Text)
    → NoOldMatch es ds
    → occurrences k (map (key_v2 files) (filter files es ds).0)
      ≡ occurrences k (map (key_v2 files) ds) - budget_of es k
unfolding filter budget_of
filter-occurrences files [] ds k h = omega arith
filter-occurrences files (e ∷ es) ds k h = remove_known-occurrences files (e ∷ es) ds k h

-- A finding whose key of the first version is a line of neither kind in the written baseline.
abbrev pub IsOnlyNewKeyed : List Text → Diagnostic → Type 0
IsOnlyNewKeyed recorded d = (is_skipped (key_v1 d) ≡ false) × (occurrences (key_v1 d) recorded ≡ 0)

NoOldMatch-written :
    (files : Text → List Text) (old ds : List Diagnostic)
    → All (IsOnlyNewKeyed (map (key_v2 files) old)) ds
    → NoOldMatch (load (some (write files old))).1 ds
NoOldMatch-written files old [] h = tt
NoOldMatch-written files old (d ∷ ds) h =
    (budget_of-load-write files old (key_v1 d) h.0.0 ∙ h.0.1, NoOldMatch-written files old ds h.1)

-- A finding's key stays after the filter as often as it occurs beyond its occurrences when the
-- baseline was written. The source files may differ between the two runs. The key, and each key of
-- the first version of a later finding, is neither empty nor a comment line, and the baseline
-- records none of the latter.
pub filter-load-write :
    (files_then files_now : Text → List Text) (old ds : List Diagnostic) (k : Text)
    → is_skipped k ≡ false
    → All (IsOnlyNewKeyed (map (key_v2 files_then) old)) ds
    → occurrences k
        (map (key_v2 files_now) (filter files_now (load (some (write files_then old))).1 ds).0)
      ≡ occurrences k (map (key_v2 files_now) ds) - occurrences k (map (key_v2 files_then) old)
filter-load-write files_then files_now old ds k counted only_new =
    let counts = (load (some (write files_then old))).1 in
    filter-occurrences files_now counts ds k (NoOldMatch-written files_then old ds only_new)
    ∙ ap (λ (n : ℕ). occurrences k (map (key_v2 files_now) ds) - n)
        (budget_of-load-write files_then old k counted)
