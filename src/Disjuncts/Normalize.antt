-- ===== src/Disjuncts/Normalize.antt =====
-- engine/GuardedDisjuncts.h: the canonical form covers what the state does, under its cap.
use code_skeptic.Prelude.{
  ◌&&◌, ◌≤◌, ◌≡◌, refl, sym, ◌∙◌, ◌⊎◌, inl, inr, Bool, true, false, Option-cases, List, [], ◌∷◌,
  ◌++◌, ltb, length, Bool-cases, arith, bool_eq,
}
use code_skeptic.PathFacts.{Facts, find_fact, key_eq}
use code_skeptic.PathFacts.Contradiction.{key_eq-holds, find_fact-holds, and_parts}
use code_skeptic.PathFacts.Stores.{Store, FactsHold}
use code_skeptic.Disjuncts.{
  Guarded, GuardedOps, max_disjuncts, facts_same, list_same, fact_same, agreed_facts, guarded_less,
  insert_sorted, sort, absorb, join_same_facts, join_sorted, collapse, widen_guarded,
  normalize_guarded, merge_guarded, merge_var_maps,
}
use code_skeptic.Disjuncts.Covers.{PathState, DisjunctCovers, Covers, IsSoundOps}
use code_skeptic.Disjuncts.Maps.{merge-VarsBelow_left, merge-VarsBelow_right}

pub agreed_facts-left :
    (s : Store) (fs gs : Facts) → FactsHold s fs → FactsHold s (agreed_facts fs gs)
unfolding agreed_facts
agreed_facts-left s [] gs h = tt
agreed_facts-left s (f ∷ fs) gs h =
    let rest = agreed_facts-left s fs gs h.1 in
    elim (Option-cases (find_fact gs f.0)) [
      | inl missing ↦ rw (missing, agreed_facts) rest
      | inr found ↦
          let (v, e) = found in
          elim (Bool-cases (bool_eq v f.1)) [
            | inl same ↦ rw (e, agreed_facts, same) (h.0, rest)
            | inr other ↦ rw (e, agreed_facts, other) rest
          ]
    ]

bool_eq_equal : (a b : Bool) → bool_eq a b ≡ true → a ≡ b
bool_eq_equal true true h = refl
bool_eq_equal true false h = cc
bool_eq_equal false true h = cc
bool_eq_equal false false h = refl

pub agreed_facts-right :
    (s : Store) (fs gs : Facts) → FactsHold s gs → FactsHold s (agreed_facts fs gs)
unfolding agreed_facts
agreed_facts-right s [] gs h = tt
agreed_facts-right s (f ∷ fs) gs h =
    let rest = agreed_facts-right s fs gs h in
    elim (Option-cases (find_fact gs f.0)) [
      | inl missing ↦ rw (missing, agreed_facts) rest
      | inr found ↦
          let (v, e) = found in
          elim (Bool-cases (bool_eq v f.1)) [
            | inl same ↦
                rw (e, agreed_facts, same)
                  (find_fact-holds s gs f.0 v h e ∙ bool_eq_equal v f.1 same, rest)
            | inr other ↦ rw (e, agreed_facts, other) rest
          ]
    ]

facts_same-FactsHold :
    (s : Store) (fs gs : Facts) → facts_same fs gs ≡ true → FactsHold s gs → FactsHold s fs
unfolding facts_same list_same fact_same
facts_same-FactsHold s [] gs e h = tt
facts_same-FactsHold s (f ∷ fs) [] e h = cc
facts_same-FactsHold s (f ∷ fs) (g ∷ gs) e h =
    let (first, rest) = and_parts (key_eq f.0 g.0 && bool_eq f.1 g.1) _ e in
    let (key, value) = and_parts (key_eq f.0 g.0) _ first in
    (
      key_eq-holds s f.0 g.0 key ∙ h.0 ∙ sym (bool_eq_equal f.1 g.1 value),
      facts_same-FactsHold s fs gs rest h.1,
    )

module _ {Val : Type 0} (Le : Store → Val → Val → Type 0) (ops : GuardedOps Val)
    (sound : IsSoundOps Le ops) (p : PathState Val) where
  insert_sorted-Covers :
      (d : Guarded Val) (es : List (Guarded Val))
      → Covers Le p (d ∷ es)
      → Covers Le p (insert_sorted ops d es)
  unfolding insert_sorted
  insert_sorted-Covers d [] h = h
  insert_sorted-Covers d (e ∷ es) h = elim (Bool-cases (guarded_less ops d e)) [
    | inl first ↦ rw first h
    | inr later ↦ rw later (elim h [
      | inl here ↦ inr (insert_sorted-Covers d es (inl here))
      | inr rest ↦ elim rest [
        | inl next ↦ inl next
        | inr deeper ↦ inr (insert_sorted-Covers d es (inr deeper))
      ]
    ])
  ]

  sort-Covers : (st : List (Guarded Val)) → Covers Le p st → Covers Le p (sort ops st)
  unfolding sort
  sort-Covers [] h = h
  sort-Covers (d ∷ ds) h =
      insert_sorted-Covers d (sort ops ds)
        (elim h [ inl here ↦ inl here | inr rest ↦ inr (sort-Covers ds rest) ])

  absorb-left :
      (into d : Guarded Val) → DisjunctCovers Le p into → DisjunctCovers Le p (absorb ops into d)
  unfolding absorb
  absorb-left into d h = (
    h.0,
    merge-VarsBelow_left Le p.store (ops.meet_val into.facts) (sound.le_trans p.store)
        (λ a b. sound.meet_left p.store into.facts a b h.0)
        (λ a b. sound.meet_right p.store into.facts a b h.0) p.values into.vars d.vars h.1,
  )

  absorb-right :
      (into d : Guarded Val)
      → facts_same into.facts d.facts ≡ true
      → DisjunctCovers Le p d
      → DisjunctCovers Le p (absorb ops into d)
  unfolding absorb
  absorb-right into d e h =
      let shared = facts_same-FactsHold p.store into.facts d.facts e h.0 in
      (
        shared,
        merge-VarsBelow_right Le p.store (ops.meet_val into.facts) (sound.le_trans p.store)
            (λ a b. sound.meet_left p.store into.facts a b shared)
            (λ a b. sound.meet_right p.store into.facts a b shared) p.values into.vars d.vars h.1,
      )

  join_same_facts-Covers :
      (last : Guarded Val) (ds : List (Guarded Val))
      → Covers Le p (last ∷ ds)
      → Covers Le p (join_same_facts ops last ds)
  unfolding join_same_facts
  join_same_facts-Covers last [] h = h
  join_same_facts-Covers last (d ∷ ds) h = elim (Bool-cases (facts_same last.facts d.facts)) [
    | inl same ↦ rw same (
        join_same_facts-Covers (absorb ops last d) ds (elim h [
          | inl here ↦ inl (absorb-left last d here)
          | inr rest ↦ elim rest [
            | inl next ↦ inl (absorb-right last d same next)
            | inr deeper ↦ inr deeper
          ]
        ]))
    | inr other ↦
        rw other
          (elim h [ inl here ↦ inl here | inr rest ↦ inr (join_same_facts-Covers d ds rest) ])
  ]

  join_sorted-Covers : (st : List (Guarded Val)) → Covers Le p st → Covers Le p (join_sorted ops st)
  unfolding join_sorted
  join_sorted-Covers [] h = h
  join_sorted-Covers (d ∷ ds) h = join_same_facts-Covers d ds h

  collapse-DisjunctCovers :
      (widened : Guarded Val) (ds : List (Guarded Val))
      → Covers Le p (widened ∷ ds)
      → DisjunctCovers Le p (collapse ops widened ds)
  unfolding collapse
  collapse-DisjunctCovers widened [] h = elim h [ inl here ↦ here | inr gone ↦ absurd gone ]
  collapse-DisjunctCovers widened (d ∷ ds) h =
      let trans = sound.le_trans p.store in
      let left = sound.merge_left p.store in
      let right = sound.merge_right p.store in
      collapse-DisjunctCovers
        (record {
          facts = agreed_facts widened.facts d.facts;
          vars = merge_var_maps ops.merge_val widened.vars d.vars;
        })
        ds
        (elim h [
          | inl here ↦ inl (
            agreed_facts-left p.store widened.facts d.facts here.0,
            merge-VarsBelow_left Le p.store ops.merge_val trans left right p.values widened.vars
                d.vars here.1,
          )
          | inr rest ↦ elim rest [
            | inl next ↦ inl (
              agreed_facts-right p.store widened.facts d.facts next.0,
              merge-VarsBelow_right Le p.store ops.merge_val trans left right p.values widened.vars
                  d.vars next.1,
            )
            | inr deeper ↦ inr deeper
          ]
        ])

  pub widen_guarded-Covers :
      (st : List (Guarded Val)) → Covers Le p st → Covers Le p (widen_guarded ops st)
  unfolding widen_guarded
  widen_guarded-Covers [] h = h
  widen_guarded-Covers (d ∷ []) h = h
  widen_guarded-Covers (d ∷ e ∷ ds) h = inl (
      sound.mine_covers p (d ∷ e ∷ ds) (collapse ops d (e ∷ ds)) h
        (collapse-DisjunctCovers d (e ∷ ds) h))

  pub normalize_guarded-Covers :
      (st : List (Guarded Val)) → Covers Le p st → Covers Le p (normalize_guarded ops st)
  unfolding normalize_guarded
  normalize_guarded-Covers st h =
      let merged = join_sorted ops (sort ops st) in
      let covered = join_sorted-Covers (sort ops st) (sort-Covers st h) in
      elim (Bool-cases (ltb max_disjuncts (length merged))) [
        | inl over ↦ rw over (widen_guarded-Covers merged covered)
        | inr fits ↦ rw fits covered
      ]

  Covers-append : (a b : List (Guarded Val)) → Covers Le p a ⊎ Covers Le p b → Covers Le p (a ++ b)
  Covers-append [] b h = elim h [ inl none_of ↦ absurd none_of | inr of_b ↦ of_b ]
  Covers-append (d ∷ ds) b h = elim h [
    | inl of_a ↦ elim of_a [ inl here ↦ inl here | inr rest ↦ inr (Covers-append ds b (inl rest)) ]
    | inr of_b ↦ inr (Covers-append ds b (inr of_b))
  ]

  -- The join covers every path that one of the two states covers.
  pub merge_guarded_sound :
      (a b : List (Guarded Val))
      → Covers Le p a ⊎ Covers Le p b
      → Covers Le p (merge_guarded ops a b)
  unfolding merge_guarded
  merge_guarded_sound a b h = normalize_guarded-Covers (a ++ b) (Covers-append a b h)

length-widen_guarded :
    {Val : Type 0} (ops : GuardedOps Val) (st : List (Guarded Val))
    → length (widen_guarded ops st) ≤ 1
unfolding widen_guarded
length-widen_guarded ops [] = omega arith
length-widen_guarded ops (d ∷ []) = omega arith
length-widen_guarded ops (d ∷ e ∷ ds) = omega arith

-- The join has at most four disjuncts.
pub length-merge_guarded :
    {Val : Type 0} (ops : GuardedOps Val) (a b : List (Guarded Val))
    → length (merge_guarded ops a b) ≤ max_disjuncts
unfolding merge_guarded normalize_guarded
length-merge_guarded ops a b =
    let merged = join_sorted ops (sort ops (a ++ b)) in
    elim (Bool-cases (ltb max_disjuncts (length merged))) [
      | inl over ↦ rw over (omega (arith, length-widen_guarded ops merged))
      | inr fits ↦ rw fits (ground arith)
    ]
