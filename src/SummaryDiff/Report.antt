-- ===== src/SummaryDiff/Report.antt =====
-- engine/SummaryDiff.cpp: `reportSummaryDiff` closes the gate exactly on what became weaker.
use code_skeptic.Prelude.{
  ℕ, ◌≤◌, ◌≡◌, ◌⊎◌, ◌↔◌, refl, Bool, true, false, Option, none, some, [], ◌∷◌, arith, inl, inr,
  subst, if◌then◌else◌, ◌&&◌,
}
use code_skeptic.SummaryDiff.{FunctionSummary}
use code_skeptic.SummaryDiff.Diff.{SummaryMap, find, report_summary_diff}
use code_skeptic.SummaryDiff.Gate.{function_weakened, any_weakened, report_summary_diff-counts}
use code_skeptic.SummaryDiff.Weakening.{Weakened, or_iff}
use code_skeptic.SummaryDiff.Visited.{directions-Weakened}

-- Some function of the old harvest has a summary in the new one, and it became weaker.
abbrev pub SomeWeakened : SummaryMap → SummaryMap → Type 0
SomeWeakened [] new = ⊥
SomeWeakened ((k, o) ∷ old) new =
    ((n : FunctionSummary) × (find new k ≡ some n) × Weakened o n) ⊎ SomeWeakened old new

function_weakened-Weakened :
    (o : FunctionSummary) (found : Option FunctionSummary)
    → (function_weakened o found ≡ true) ↔ ((n : FunctionSummary) × (found ≡ some n) × Weakened o n)
function_weakened-Weakened o none = (λ h. cc, λ w. cc w.1)
function_weakened-Weakened o (some n) = (
  λ h. (n, refl, (directions-Weakened o n).0 h),
  λ w.
      let same : w.0 ≡ n = cc w.1 in
      (directions-Weakened o n).1 (subst (λ m. Weakened o m) same w.2),
)

any_weakened-SomeWeakened :
    (old new : SummaryMap) → (any_weakened new old ≡ true) ↔ SomeWeakened old new
any_weakened-SomeWeakened [] new = (λ h. cc, λ w. absurd w)
any_weakened-SomeWeakened ((k, o) ∷ old) new =
    or_iff _ _ (function_weakened-Weakened o (find new k)) (any_weakened-SomeWeakened old new)

exit_code-gate :
    {P : Type 0} (found gate : Bool) (code : ℕ)
    → (found ≡ true) ↔ P
    → code ≡ (if found && gate then 1 else 0)
    → ((code ≡ 1) ↔ ((gate ≡ true) × P)) × (code ≤ 1)
exit_code-gate true true code h e = ((λ c. (refl, h.0 refl), λ w. e), omega arith)
exit_code-gate true false code h e =
    ((λ c. absurd (omega arith), λ w. absurd (cc w.0)), omega arith)
exit_code-gate false gate code h e =
    ((λ c. absurd (omega arith), λ w. absurd (cc (h.1 w.1))), omega arith)

-- The gate exits 2 exactly if a file cannot be read, 1 exactly if it is armed, both files can be
-- read and a function that both harvests have became weaker, and else 0. A function became weaker if
-- its return was never null, always zero or never zero, of a known ownership or exactly a parameter,
-- and is not that any more; or if for some parameter a read-only or freeing effect, a known access,
-- ownership or postcondition, or an allocation size is not what it was, the caller owes more, or a
-- field that was promised not to be written may be. That a zero or null of a parameter is passed on
-- and the condition of a null return are claims that the gate does not compare.
pub report_summary_diff_lem :
    (old new : Option SummaryMap) (gate : Bool)
    → ((report_summary_diff old new gate ≡ 2) ↔ ((old ≡ none) ⊎ (new ≡ none)))
      × ((report_summary_diff old new gate ≡ 1) ↔ (
          (gate ≡ true)
          × ((o : SummaryMap) × (n : SummaryMap) × (old ≡ some o)
              × (new ≡ some n)
              × SomeWeakened o n)))
      × (report_summary_diff old new gate ≤ 2)
unfolding report_summary_diff
report_summary_diff_lem none new gate =
    ((λ h. inl refl, λ s. refl), (λ h. absurd (omega arith), λ w. absurd (cc w.1.2)), omega arith)
report_summary_diff_lem (some o) none gate =
    ((λ h. inr refl, λ s. refl), (λ h. absurd (omega arith), λ w. absurd (cc w.1.3)), omega arith)
report_summary_diff_lem (some o) (some n) gate =
    let (one, small) =
      exit_code-gate (any_weakened n o) gate _ (any_weakened-SomeWeakened o n)
        (report_summary_diff-counts o n gate) in
    (
      (λ h. absurd (omega arith), λ s. elim s [ inl e ↦ absurd (cc e) | inr e ↦ absurd (cc e) ]),
      (
        λ h. ((one.0 h).0, (o, n, refl, refl, (one.0 h).1)),
        λ w.
            let (a, b, e, f, found) = w.1 in
            let here : a ≡ o = cc e in
            let there : b ≡ n = cc f in
            one.1
              (w.0, subst (λ m. SomeWeakened m n) here (subst (λ m. SomeWeakened a m) there found)),
      ),
      omega arith,
    )
