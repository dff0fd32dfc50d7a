-- ===== src/PathFacts/Contradiction.antt =====
-- engine/PathFacts.cpp: `factsContradict` refutes only what the facts rule out.
use code_skeptic.Prelude.{
  ℕ, ◌≡◌, refl, sym, ap, ◌∙◌, Bool, true, false, not, ◌&&◌, Option, none, some, [], ◌∷◌, ◌==◌,
  bool_eq, opt_eq, Bool-cases, Option-cases, inl, inr, arith, ==_eq,
}
use code_skeptic.Prelude.Int.{ℤ, eqb_ℤ}
use code_skeptic.PathFacts.{
  Rel, FactKey, Facts, key_eq, find_fact, compare_literals, is_equals, answers_otherwise,
  any_answers_otherwise, facts_contradict, equals, below, at_most, rel_code,
}
use code_skeptic.PathFacts.Stores.{Store, place_value, key_holds, FactsHold}

opt_equal : (a b : Option ℕ) → opt_eq a b ≡ true → a ≡ b
opt_equal none none h = refl
opt_equal none (some n) h = cc
opt_equal (some m) none h = cc
opt_equal (some m) (some n) h = ap some (sym (==_eq n m h))

eqb_equal : (a b : ℤ) → eqb_ℤ a b ≡ true → a ≡ b
eqb_equal a b h = ground arith

rel_equal : (a b : Rel) → (rel_code a == rel_code b) ≡ true → a ≡ b
rel_equal equals equals h = refl
rel_equal below below h = refl
rel_equal at_most at_most h = refl
rel_equal equals below h = cc
rel_equal equals at_most h = cc
rel_equal below equals h = cc
rel_equal below at_most h = cc
rel_equal at_most equals h = cc
rel_equal at_most below h = cc

pub and_parts : (a b : Bool) → (a && b) ≡ true → (a ≡ true) × (b ≡ true)
and_parts true true h = (refl, refl)
and_parts true false h = cc
and_parts false b h = cc

pub key_eq-holds : (s : Store) (k o : FactKey) → key_eq k o ≡ true → key_holds s k ≡ key_holds s o
unfolding key_eq
key_eq-holds s k o h =
    let (hv, h1) = and_parts (k.var == o.var) _ h in
    let (hr, h2) = and_parts (rel_code k.rel == rel_code o.rel) _ h1 in
    let (hl, hf) = and_parts (eqb_ℤ k.literal o.literal) _ h2 in
    let v = ==_eq k.var o.var hv in
    let r = rel_equal k.rel o.rel hr in
    let l = eqb_equal k.literal o.literal hl in let f = opt_equal k.field o.field hf in cc

pub find_fact-holds :
    (s : Store) (fs : Facts) (k : FactKey) (v : Bool)
    → FactsHold s fs
    → find_fact fs k ≡ some v
    → key_holds s k ≡ v
unfolding find_fact
find_fact-holds s [] k v h q = cc
find_fact-holds s (f ∷ fs) k v h q = elim (Bool-cases (key_eq f.0 k)) [
  | inl same ↦
      let found : f.1 ≡ v = (let q' = rw same at q in cc) in
      sym (key_eq-holds s f.0 k same) ∙ h.0 ∙ found
  | inr other ↦ find_fact-holds s fs k v h.1 (rw other at q)
]

equals-value : (r : Rel) (a b : ℤ) → is_equals r ≡ true → compare_literals r a b ≡ true → a ≡ b
unfolding compare_literals
equals-value equals a b e h = eqb_equal a b h
equals-value below a b e h = cc
equals-value at_most a b e h = cc

not_equal : (a b : Bool) → not (bool_eq a b) ≡ true → a ≡ not b
not_equal true true h = cc
not_equal true false h = refl
not_equal false true h = refl
not_equal false false h = cc

answers_otherwise-holds :
    (s : Store) (f : FactKey × Bool) (k : FactKey) (wanted : Bool)
    → key_holds s f.0 ≡ f.1
    → answers_otherwise f k wanted ≡ true
    → key_holds s k ≡ not wanted
unfolding answers_otherwise
answers_otherwise-holds s f k wanted h q =
    let (hv, q1) = and_parts (f.0.var == k.var) _ q in
    let (hf, q2) = and_parts (opt_eq f.0.field k.field) _ q1 in
    let (hr, q3) = and_parts (is_equals f.0.rel) _ q2 in
    let (ht, differs) = and_parts f.1 _ q3 in
    let v = ==_eq f.0.var k.var hv in
    let field = opt_equal f.0.field k.field hf in
    let value : place_value s f.0.var f.0.field ≡ f.0.literal =
      equals-value f.0.rel (place_value s f.0.var f.0.field) f.0.literal hr (h ∙ ht) in
    let place : place_value s k.var k.field ≡ f.0.literal = cc in
    ap (λ (a : ℤ). compare_literals k.rel a k.literal) place
    ∙ not_equal (compare_literals k.rel f.0.literal k.literal) wanted differs

any_answers-holds :
    (s : Store) (fs : Facts) (k : FactKey) (wanted : Bool)
    → FactsHold s fs
    → any_answers_otherwise fs k wanted ≡ true
    → key_holds s k ≡ not wanted
unfolding any_answers_otherwise
any_answers-holds s [] k wanted h q = cc
any_answers-holds s (f ∷ fs) k wanted h q = elim (Bool-cases (answers_otherwise f k wanted)) [
  | inl found ↦ answers_otherwise-holds s f k wanted h.0 found
  | inr other ↦ any_answers-holds s fs k wanted h.1 (rw other at q)
]

-- If the facts of a disjunct hold and contradict that a key has a value, then the key has the other
-- value.
pub facts_contradict_sound :
    (s : Store) (fs : Facts) (k : FactKey) (wanted : Bool)
    → FactsHold s fs
    → facts_contradict fs k wanted ≡ true
    → key_holds s k ≡ not wanted
unfolding facts_contradict
facts_contradict_sound s fs k wanted h q = elim (Option-cases (find_fact fs k)) [
  | inl missing ↦ any_answers-holds s fs k wanted h (rw (missing, facts_contradict) at q)
  | inr found ↦
      let (v, e) = found in
      find_fact-holds s fs k v h e ∙ not_equal v wanted (rw (e, facts_contradict) at q)
]
