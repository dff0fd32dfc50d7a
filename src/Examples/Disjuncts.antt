-- ===== src/Examples/Disjuncts.antt =====
-- engine/PathFacts.cpp, GuardedDisjuncts.h: facts and disjuncts of the nullness of one pointer.
use code_skeptic.Prelude.{
  ℕ, ◌≤◌, ◌≡◌, refl, inl, inr, Bool, true, false, not, ◌==◌, ltb, Bool-cases, subst, Option, none,
  some, [], ◌∷◌, length, arith, if◌then◌else◌,
}
use code_skeptic.Prelude.Int.{pos, negsuc}
use code_skeptic.Condition.{
  IntType, Var, integer, Expr, literal, ref, implicit, keeps_value, bin, ne, assign, null_ptr,
  paren, explicit,
}
use code_skeptic.Condition.Meaning.{eval, binary, is_true, convert}
use code_skeptic.Condition.Digests.{is_null_literal, is_pointer_var}
use code_skeptic.IntervalEval.{sext_literal}
use code_skeptic.IntervalEval.Assign.{Stmt, evaluate}
use code_skeptic.PathFacts.{
  FactKey, var_key, equals, below, normalize_compare, canonical_of, canonical, zero_identity,
  facts_contradict, find_fact, key_eq, any_answers_otherwise, answers_otherwise, compare_literals,
}
use code_skeptic.PathFacts.Stores.{Store, place_value, key_holds, claim_value}
use code_skeptic.PathFacts.Conditions.{
  Ast, Keyable, other_shape, is_null_constant, condition_fact, comparison_fact, int_test,
  stable_decl_ref, is_stable, ptr_decl_ref, is_keyed_pointer, null_test, as_ref, int_literal_value,
  member_fact_ref, is_integer, is_unsigned,
}
use code_skeptic.PathFacts.Keying.{IsRead}
use code_skeptic.PathFacts.Facts.{condition_fact_sound}
use code_skeptic.PathFacts.Contradiction.{facts_contradict_sound}
use code_skeptic.Disjuncts.{Guarded, GuardedOps, plain_ops, find_var, merge_guarded, max_disjuncts}
use code_skeptic.Disjuncts.Covers.{PathState, DisjunctCovers, Covers, IsSoundOps}
use code_skeptic.Disjuncts.Normalize.{merge_guarded_sound, length-merge_guarded}
use code_skeptic.Disjuncts.Edges.{refine_guarded_facts_ops}
use code_skeptic.Disjuncts.Leaves.{refine_guarded_facts_ops_sound}
use code_skeptic.Disjuncts.Refinement.{IsSoundRefuter, IsSoundLeaf}
use code_skeptic.Disjuncts.Statements.{apply_stmt_facts, assigned_decl, assigned_member_fact}
use code_skeptic.Disjuncts.Assignments.{at}
use code_skeptic.Disjuncts.Execution.{Runs, IsStored}
use code_skeptic.Disjuncts.Lifecycle.{apply_stmt_facts_sound}
use code_skeptic.Examples.Digests.{null_value, env_null}

abbrev int : IntType
int = record { signed = true; width = 32 }

abbrev flag : Var
flag = record { id = 5; kind = integer int }

-- No expression is opaque, and no variable is special.
abbrev ast : Ast
ast = record {
  shape = λ n. other_shape;
  template_param = λ v. false;
  volatile = λ v. false;
  enumeral = λ v. false;
  static_local = λ v. false;
  depth = 0;
}

abbrev keyable : Keyable
keyable = record { unkeyable = λ v. false; ptr_keyable = λ v. false; member_base = λ v. false }

-- Variable 8 has the value -1, and every other has the value 64.
abbrev store : Store
store = record { env = env_null; member = λ b f. pos 0 }

same_null : (e : Expr) → is_null_constant e ≡ is_null_literal e
unfolding is_null_constant is_null_literal
same_null (paren e) = same_null e
same_null (implicit k e) = same_null e
same_null (explicit k e) = same_null e
same_null null_ptr = refl
same_null (literal t n) = refl
same_null _ = refl

store-IsRead : IsRead ast store
store-IsRead = record { shapes = λ n. tt; null = λ e h. null_value e (rw (same_null e) at h) }

-- `flag != 7`
abbrev not_seven : Expr
not_seven = bin ne (implicit keeps_value (ref flag)) (literal int 7)

abbrev seven : FactKey
seven = var_key 5 equals (pos 7)

not_seven_fact : condition_fact ast keyable not_seven ≡ some (var_key 5 equals (pos 7), false)
unfolding condition_fact comparison_fact int_test stable_decl_ref is_stable ptr_decl_ref
    is_keyed_pointer null_test as_ref int_literal_value is_integer is_unsigned sext_literal
    normalize_compare canonical_of canonical zero_identity is_pointer_var convert
not_seven_fact = refl

not_seven_taken : is_true (eval env_null not_seven) ≡ true
unfolding eval binary
not_seven_taken = refl

condition_fact_sound_example :
    is_true (eval env_null not_seven) ≡ claim_value store (var_key 5 equals (pos 7), false)
unfolding eval
condition_fact_sound_example =
    condition_fact_sound ast store store-IsRead keyable not_seven (var_key 5 equals (pos 7), false)
      ((refl, tt), tt) (tt, (omega arith, omega arith)) (λ h. omega arith, tt) not_seven_fact

sixty_four_contradicts : facts_contradict ((var_key 5 equals (pos 64), true) ∷ []) seven true ≡ true
unfolding facts_contradict find_fact key_eq any_answers_otherwise answers_otherwise compare_literals
sixty_four_contradicts = refl

-- `unsigned u = -1` is stamped as -1, so `u >= 10` is held to be false.
minus_one_is_small :
    facts_contradict ((var_key 5 equals (negsuc 0), true) ∷ []) (var_key 5 below (pos 10)) false
    ≡ true
unfolding facts_contradict find_fact key_eq any_answers_otherwise answers_otherwise compare_literals
minus_one_is_small = refl

facts_contradict_sound_example : key_holds store seven ≡ not true
unfolding compare_literals
facts_contradict_sound_example =
    facts_contradict_sound store ((var_key 5 equals (pos 64), true) ∷ []) seven true (refl, tt)
      sixty_four_contradicts

data Nullness : Type 0 where
  null non_null maybe : Nullness

below_or_same : Nullness → Nullness → Bool
below_or_same a maybe = true
below_or_same null null = true
below_or_same non_null non_null = true
below_or_same a b = false

merge_values : Nullness → Nullness → Nullness
merge_values null null = null
merge_values non_null non_null = non_null
merge_values a b = maybe

abbrev code : Nullness → ℕ
code null = 0
code non_null = 1
code maybe = 2

abbrev Le : Store → Nullness → Nullness → Type 0
Le s a b = below_or_same a b ≡ true

abbrev ops : GuardedOps Nullness
ops = plain_ops (λ a b. ltb (code a) (code b)) (λ a b. code a == code b) merge_values

le_refl : (a : Nullness) → below_or_same a a ≡ true
unfolding below_or_same
le_refl null = refl
le_refl non_null = refl
le_refl maybe = refl

le_trans :
    (a b c : Nullness)
    → below_or_same a b ≡ true
    → below_or_same b c ≡ true
    → below_or_same a c ≡ true
unfolding below_or_same
le_trans null b maybe h k = refl
le_trans non_null b maybe h k = refl
le_trans maybe b maybe h k = refl
le_trans a null null h k = h
le_trans a non_null non_null h k = h
le_trans a maybe null h k = cc
le_trans a maybe non_null h k = cc
le_trans a null non_null h k = cc
le_trans a non_null null h k = cc

merge_left : (a b : Nullness) → below_or_same a (merge_values a b) ≡ true
unfolding below_or_same merge_values
merge_left null null = refl
merge_left null non_null = refl
merge_left null maybe = refl
merge_left non_null null = refl
merge_left non_null non_null = refl
merge_left non_null maybe = refl
merge_left maybe null = refl
merge_left maybe non_null = refl
merge_left maybe maybe = refl

merge_comm : (a b : Nullness) → merge_values a b ≡ merge_values b a
unfolding merge_values
merge_comm null null = refl
merge_comm null non_null = refl
merge_comm null maybe = refl
merge_comm non_null null = refl
merge_comm non_null non_null = refl
merge_comm non_null maybe = refl
merge_comm maybe null = refl
merge_comm maybe non_null = refl
merge_comm maybe maybe = refl

merge_right : (a b : Nullness) → below_or_same b (merge_values a b) ≡ true
merge_right a b = rw (merge_comm a b) (merge_left b a)

ops-IsSound : IsSoundOps Le ops
ops-IsSound = record {
  le_refl = λ s. le_refl;
  le_trans = λ s. le_trans;
  merge_left = λ s. merge_left;
  merge_right = λ s. merge_right;
  meet_left = λ s fs a b h. merge_left a b;
  meet_right = λ s fs a b h. merge_right a b;
  mine_covers = λ p before widened h k. k;
}

-- The pointer 9 was produced where the flag is not 7, and is null where it is.
abbrev is_seven : Guarded Nullness
is_seven = record { facts = (seven, true) ∷ []; vars = (9, null) ∷ [] }

abbrev is_other : Guarded Nullness
is_other = record { facts = (seven, false) ∷ []; vars = (9, non_null) ∷ [] }

abbrev values : ℕ → Option Nullness
values x = if 9 == x then some non_null else none

abbrev path : PathState Nullness
path = record { store = store; values = values }

other_covers : DisjunctCovers Le path is_other
unfolding compare_literals find_var
other_covers = (
  (refl, tt),
  λ x v q. elim (Bool-cases (9 == x)) [
    | inl here ↦
        let e : some non_null ≡ some v = rw here at q in
        let same : non_null ≡ v = cc in
        rw here (subst (λ (a : Nullness). below_or_same a non_null ≡ true) same (le_refl non_null))
    | inr there ↦ let q' = rw there at q in cc
  ],
)

merge_guarded_sound_example : Covers Le path (merge_guarded ops (is_seven ∷ []) (is_other ∷ []))
merge_guarded_sound_example =
    merge_guarded_sound Le ops ops-IsSound path (is_seven ∷ []) (is_other ∷ [])
      (inr (inl other_covers))

length-merge_guarded_example :
    length (merge_guarded ops (is_seven ∷ []) (is_other ∷ [])) ≤ max_disjuncts
length-merge_guarded_example = length-merge_guarded ops (is_seven ∷ []) (is_other ∷ [])

nothing_refuted : Guarded Nullness → Expr → Bool → Bool
nothing_refuted d e wanted = false

unchanged : Guarded Nullness → Expr → Bool → Guarded Nullness
unchanged d e sense = d

nothing_refuted-IsSoundRefuter : IsSoundRefuter Le path (λ e. false) nothing_refuted
unfolding nothing_refuted
nothing_refuted-IsSoundRefuter d e wanted h t = refl

unchanged-IsSoundLeaf : IsSoundLeaf Le path (λ e. false) (λ d e sense. some (unchanged d e sense))
unfolding unchanged
unchanged-IsSoundLeaf d e sense h t = h

refine_guarded_facts_ops_sound_example : Covers Le path (
    refine_guarded_facts_ops ast keyable
      (λ e. false)
      ops
      nothing_refuted
      unchanged
      (is_seven ∷ is_other ∷ [])
      not_seven
      true)
unfolding eval
refine_guarded_facts_ops_sound_example =
    refine_guarded_facts_ops_sound Le path ast keyable (λ e. false) store-IsRead ops ops-IsSound
      nothing_refuted unchanged nothing_refuted-IsSoundRefuter unchanged-IsSoundLeaf
      (is_seven ∷ is_other ∷ []) not_seven true
      (
        ((refl, tt), tt),
        (tt, (omega arith, omega arith)),
        not_seven_taken,
        (λ h. omega arith, tt),
        ((λ h. cc), ((λ h. cc), (λ h. cc)), (λ h. cc)),
      )
      (inr (inl other_covers))

-- `flag = 7`
abbrev set_seven : Stmt
set_seven = evaluate (bin assign (ref flag) (literal int 7))

abbrev after : Store
after = record {
  env = record env_null { var = λ n. if n == 5 then pos 7 else env_null.var n };
  member = λ b f. pos 0;
}

set_seven-Runs : Runs ast keyable set_seven store after
unfolding assigned_decl assigned_member_fact member_fact_ref as_ref eval
set_seven-Runs = record {
  keeps_places = λ x f h. places x f h;
  var_value = λ v e d q.
      let var_is : flag ≡ v = cc in
      let expr_is : literal int 7 ≡ e = cc in
      subst (λ (u : Var). IsStored ast keyable store (after.env.var u.id) e) var_is
        (subst (λ (r : Expr). IsStored ast keyable store (pos 7) r) expr_is
          (tt, (omega arith, omega arith), refl));
  member_value = λ m e d q. cc;
}
  where
    places :
        (x : ℕ) (f : Option ℕ) → (x == 5) ≡ false → place_value after x f ≡ place_value store x f
    places x none h = rw h refl
    places x (some f) h = refl

apply_stmt_facts_sound_example :
    Covers Le
      (at Le (λ s t a b h. h) values after)
      (apply_stmt_facts ast keyable ops
        (λ v. true)
        (λ v. false)
        true
        (is_seven ∷ is_other ∷ [])
        set_seven).0
apply_stmt_facts_sound_example =
    apply_stmt_facts_sound ast keyable (λ v. true) (λ v. false) store after store-IsRead Le
      (λ s t a b h. h) values ops ops-IsSound true set_seven (is_seven ∷ is_other ∷ [])
      (λ off x. cc) set_seven-Runs (inr (inl other_covers))
