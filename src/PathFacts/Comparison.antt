-- ===== src/PathFacts/Comparison.antt =====
-- engine/PathFacts.cpp: the fact of a comparison says what the comparison says.
use code_skeptic.Prelude.{
  ℕ, ◌≡◌, refl, ap, ◌∙◌, Bool, true, false, Option, none, some, bool_eq, Bool-cases, inl, inr,
}
use code_skeptic.Prelude.Int.{ℤ, pos, ◌≤ℤ◌}
use code_skeptic.Condition.{Var, BinOp, Expr}
use code_skeptic.Condition.Meaning.{eval, compare_values, CastsKeep, LiteralsFit}
use code_skeptic.PathFacts.{FactKey, Claim, var_key, equals, compare_literals}
use code_skeptic.PathFacts.Stores.{Store, key_holds, claim_value}
use code_skeptic.PathFacts.Normal.{normalize_compare-value}
use code_skeptic.PathFacts.Conditions.{
  Ast, Keyable, as_ref, is_unsigned, is_null_constant, is_equality, is_eq, filtered, int_test,
  null_test, member_key, member_test, int_literal_value, is_stable, stable_decl_ref,
  is_keyed_pointer, ptr_decl_ref, member_fact_ref, comparison_fact,
}
use code_skeptic.PathFacts.Keying.{
  IsRead, filtered-some, equality-value, equality-sym, as_ref-eval, as_ref-unsigned, UnsignedHold,
  int_literal_value-eval, member_fact_ref-eval,
}

-- What is known of an operand, and what a fact says.
module _ (s : Store) where
  abbrev pub IsAt : ℤ → Option Var → Type 0
  IsAt w o = (v : Var) → o ≡ some v → w ≡ s.env.var v.id

  abbrev pub IsUnsigned : Option Var → Type 0
  IsUnsigned o = (v : Var) → o ≡ some v → is_unsigned v ≡ true → pos 0 ≤ℤ s.env.var v.id

  abbrev pub IsConst : ℤ → Option ℤ → Type 0
  IsConst w o = (c : ℤ) → o ≡ some c → w ≡ c

  abbrev pub IsMember : ℤ → Option (ℕ × ℕ) → Type 0
  IsMember w o = (m : ℕ × ℕ) → o ≡ some m → w ≡ s.member m.0 m.1

  abbrev pub Says : Bool → Option Claim → Type 0
  Says value o = (c : Claim) → o ≡ some c → value ≡ claim_value s c

module _ (ast : Ast) (s : Store) (read : IsRead ast s) where
  int_test-Says :
      (op : BinOp) (a b : ℤ) (lv rv : Option Var) (lc rc : Option ℤ) (rest : Option Claim)
      → IsAt s a lv
      → IsAt s b rv
      → IsUnsigned s lv
      → IsUnsigned s rv
      → IsConst s a lc
      → IsConst s b rc
      → Says s (compare_values op a b) rest
      → Says s (compare_values op a b) (int_test op lv rv lc rc rest)
  unfolding int_test
  int_test-Says op a b (some v) rv lc (some d) rest ha hb ul ur hc hd hr claim q =
      ap (λ (x : ℤ). compare_values op x b) (ha v refl)
      ∙ ap (compare_values op (s.env.var v.id)) (hd d refl)
      ∙ normalize_compare-value s (is_unsigned v) v.id op d true claim (ul v refl) q
  int_test-Says op a b (some v) rv lc none rest ha hb ul ur hc hd hr claim q = cc
  int_test-Says op a b none (some v) (some d) rc rest ha hb ul ur hc hd hr claim q =
      ap (λ (x : ℤ). compare_values op x b) (hc d refl)
      ∙ ap (compare_values op d) (hb v refl)
      ∙ normalize_compare-value s (is_unsigned v) v.id op d false claim (ur v refl) q
  int_test-Says op a b none (some v) none rc rest ha hb ul ur hc hd hr claim q = cc
  int_test-Says op a b none none lc rc rest ha hb ul ur hc hd hr claim q = hr claim q

  -- A comparison of a place with a constant, by an equality.
  equality-Says :
      (op : BinOp) (a b w c : ℤ) (key : FactKey) (claim : Claim)
      → is_equality op ≡ true
      → compare_literals equals w c ≡ key_holds s key
      → a ≡ w
      → b ≡ c
      → (key, is_eq op) ≡ claim
      → compare_values op a b ≡ claim_value s claim
  equality-Says op a b w c key claim eq_op holds ha hb e =
      ap (λ (x : ℤ). compare_values op x b) ha
      ∙ ap (compare_values op w) hb
      ∙ equality-value op w c eq_op
      ∙ ap (λ (x : Bool). bool_eq x (is_eq op)) holds
      ∙ ap (claim_value s) e

  null_test-Says :
      (op : BinOp) (a b : ℤ) (lp rp : Option Var) (ln rn : Bool) (rest : Option Claim)
      → is_equality op ≡ true
      → IsAt s a lp
      → IsAt s b rp
      → (ln ≡ true → a ≡ pos 0)
      → (rn ≡ true → b ≡ pos 0)
      → Says s (compare_values op a b) rest
      → Says s (compare_values op a b) (null_test op lp rp ln rn rest)
  unfolding null_test
  null_test-Says op a b (some v) rp ln true rest eq_op ha hb hn hm hr claim q =
      equality-Says op a b (s.env.var v.id) (pos 0) (var_key v.id equals (pos 0)) claim eq_op refl
        (ha v refl) (hm refl) (cc)
  null_test-Says op a b (some v) rp ln false rest eq_op ha hb hn hm hr claim q = hr claim q
  null_test-Says op a b none (some v) true rn rest eq_op ha hb hn hm hr claim q =
      equality-sym op a b eq_op
      ∙ equality-Says op b a (s.env.var v.id) (pos 0) (var_key v.id equals (pos 0)) claim eq_op refl
          (hb v refl) (hn refl) (cc)
  null_test-Says op a b none (some v) false rn rest eq_op ha hb hn hm hr claim q = hr claim q
  null_test-Says op a b none none ln rn rest eq_op ha hb hn hm hr claim q = hr claim q

  member_test-Says :
      (op : BinOp) (a b : ℤ) (lm rm : Option (ℕ × ℕ)) (lc rc : Option ℤ)
      → is_equality op ≡ true
      → IsMember s a lm
      → IsMember s b rm
      → IsConst s a lc
      → IsConst s b rc
      → Says s (compare_values op a b) (member_test op lm rm lc rc)
  unfolding member_test
  member_test-Says op a b (some m) rm lc (some d) eq_op ha hb hc hd claim q =
      equality-Says op a b (s.member m.0 m.1) d (member_key m d) claim eq_op refl (ha m refl)
        (hd d refl) (cc)
  member_test-Says op a b (some m) rm lc none eq_op ha hb hc hd claim q = cc
  member_test-Says op a b none (some m) (some d) rc eq_op ha hb hc hd claim q =
      equality-sym op a b eq_op
      ∙ equality-Says op b a (s.member m.0 m.1) d (member_key m d) claim eq_op refl (hb m refl)
          (hc d refl) (cc)
  member_test-Says op a b none (some m) none rc eq_op ha hb hc hd claim q = cc
  member_test-Says op a b none none lc rc eq_op ha hb hc hd claim q = cc

  pub filtered-IsAt :
      (e : Expr) (p : Var → Bool)
      → CastsKeep s.env e
      → IsAt s (eval s.env e) (filtered (as_ref e) p)
  filtered-IsAt e p h v q = as_ref-eval ast s read e v h (filtered-some (as_ref e) p v q)

  filtered-IsUnsigned :
      (e : Expr) (p : Var → Bool) → UnsignedHold s.env e → IsUnsigned s (filtered (as_ref e) p)
  filtered-IsUnsigned e p h v q = as_ref-unsigned ast s read e v h (filtered-some (as_ref e) p v q)

  module _ (k : Keyable) where
    pub comparison_fact-Says :
        (op : BinOp) (l r : Expr)
        → CastsKeep s.env l
        → CastsKeep s.env r
        → LiteralsFit l
        → LiteralsFit r
        → UnsignedHold s.env l
        → UnsignedHold s.env r
        → Says s (compare_values op (eval s.env l) (eval s.env r)) (comparison_fact ast k op l r)
    unfolding comparison_fact stable_decl_ref ptr_decl_ref
    comparison_fact-Says op l r hl hr fl fr ul ur =
        let a = eval s.env l in
        let b = eval s.env r in
        let lit_l : IsConst s a (int_literal_value ast l) =
          λ c q. int_literal_value-eval ast s read l c hl fl q in
        let lit_r : IsConst s b (int_literal_value ast r) =
          λ c q. int_literal_value-eval ast s read r c hr fr q in
        let ints = λ (rest : Option Claim).
          int_test-Says op a b (stable_decl_ref ast k l) (stable_decl_ref ast k r)
            (int_literal_value ast l) (int_literal_value ast r) rest
            (filtered-IsAt l (is_stable ast k) hl) (filtered-IsAt r (is_stable ast k) hr)
            (filtered-IsUnsigned l (is_stable ast k) ul)
            (filtered-IsUnsigned r (is_stable ast k) ur) lit_l lit_r in
        elim (Bool-cases (is_equality op)) [
          | inl eq_op ↦ rw eq_op (
              null_test-Says op a b (ptr_decl_ref ast k l) (ptr_decl_ref ast k r)
                (is_null_constant l) (is_null_constant r) _ eq_op
                (filtered-IsAt l (is_keyed_pointer ast k) hl)
                (filtered-IsAt r (is_keyed_pointer ast k) hr) (read.null l) (read.null r)
                (ints _ (
                  member_test-Says op a b (member_fact_ref ast k l) (member_fact_ref ast k r)
                    (int_literal_value ast l) (int_literal_value ast r) eq_op
                    (λ m q. member_fact_ref-eval ast s read k l m hl q)
                    (λ m q. member_fact_ref-eval ast s read k r m hr q) lit_l lit_r)))
          | inr other ↦ rw other (ints none (λ c q. cc))
        ]
