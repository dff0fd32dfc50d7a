-- ===== src/IntervalAnalysis/Orders.antt =====
-- engine/IntervalAnalysis.h and engine/DataflowEngine.h: what the operations of the domain keep.
use code_skeptic.Prelude.{
  ℕ, ◌≡◌, refl, sym, ap, ◌∙◌, true, Option, none, some, List, [], ◌∷◌, ◌==◌, arith, Bool-cases,
  Option-cases, inl, inr, ==_eq,
}
use code_skeptic.Prelude.Int.{ℤ}
use code_skeptic.Interval.{Interval, top, contains, join, eqb, is_singleton}
use code_skeptic.Interval.Lattice.{contains-join_left, contains-join_right}
use code_skeptic.Interval.Sound.{contains-top}
use code_skeptic.Condition.{Expr}
use code_skeptic.Condition.Meaning.{Env}
use code_skeptic.IntervalEval.Eval.{Covers}
use code_skeptic.IntervalEval.Assign.{IntervalState}
use code_skeptic.IntervalAnalysis.{
  member, initial_state, merge_entry, merge, same_entry, same_on, same, widen_entry, widen,
}
use code_skeptic.IntervalAnalysis.Entries.{present}
use code_skeptic.IntervalAnalysis.Engine.{State, In}

module _ (ids : List ℕ) (seeds : ℕ → Option Interval) (folds : Expr → Option ℤ) where
  pub initial-Covers :
      (ρ : Env)
      → ((x : ℕ) (a : Interval) → seeds x ≡ some a → contains a (ρ.var x) ≡ true)
      → Covers (initial_state ids seeds folds).iv ρ
  unfolding initial_state
  initial-Covers ρ h x a e = elim (Bool-cases (member ids x)) [
    | inr n ↦ cc (rw n at e)
    | inl y ↦ elim (Option-cases (seeds x)) [
      | inl none_ ↦
          let s : top ≡ a = let z = rw (y, none_) at e in cc in rw (sym s) (contains-top (ρ.var x))
      | inr p ↦
          let (b, q) = p in let s : b ≡ a = let z = rw (y, q) at e in cc in rw (sym s) (h x b q)
    ]
  ]

  merge_entry-left :
      (o p : Option Interval) (c : Interval) (v : ℤ)
      → present o ≡ present p
      → ((a : Interval) → o ≡ some a → contains a v ≡ true)
      → merge_entry ids seeds folds o p ≡ some c
      → contains c v ≡ true
  unfolding merge_entry
  merge_entry-left none none c v h k e = cc
  merge_entry-left none (some b) c v h k e = cc
  merge_entry-left (some a) none c v h k e = cc
  merge_entry-left (some a) (some b) c v h k e =
      let s : join a b ≡ c = cc in rw (sym s) (contains-join_left a b v (k a refl))

  merge_entry-right :
      (o p : Option Interval) (c : Interval) (v : ℤ)
      → present o ≡ present p
      → ((b : Interval) → p ≡ some b → contains b v ≡ true)
      → merge_entry ids seeds folds o p ≡ some c
      → contains c v ≡ true
  unfolding merge_entry
  merge_entry-right none none c v h k e = cc
  merge_entry-right none (some b) c v h k e = cc
  merge_entry-right (some a) none c v h k e = cc
  merge_entry-right (some a) (some b) c v h k e =
      let s : join a b ≡ c = cc in rw (sym s) (contains-join_right a b v (k b refl))

  pub merge-left :
      (s t : State ids seeds folds) (ρ : Env)
      → In ids seeds folds s ρ
      → Covers (merge ids seeds folds s.0 t.0).iv ρ
  unfolding merge
  merge-left (s, hs) (t, ht) ρ c x a e =
      merge_entry-left (s.iv x) (t.iv x) a (ρ.var x) (hs x ∙ sym (ht x)) (c x) e

  pub merge-right :
      (s t : State ids seeds folds) (ρ : Env)
      → In ids seeds folds t ρ
      → Covers (merge ids seeds folds s.0 t.0).iv ρ
  unfolding merge
  merge-right (s, hs) (t, ht) ρ c x a e =
      merge_entry-right (s.iv x) (t.iv x) a (ρ.var x) (hs x ∙ sym (ht x)) (c x) e

  eqb-contains : (a b : Interval) (v : ℤ) → eqb a b ≡ true → contains a v ≡ contains b v
  unfolding eqb contains
  eqb-contains a b v h = ground arith

  same_entry-forth :
      (o p : Option Interval) (a : Interval) (v : ℤ)
      → same_entry ids seeds folds o p ≡ true
      → ((b : Interval) → p ≡ some b → contains b v ≡ true)
      → o ≡ some a
      → contains a v ≡ true
  unfolding same_entry
  same_entry-forth none p a v h k e = cc
  same_entry-forth (some c) none a v h k e = cc
  same_entry-forth (some c) (some b) a v h k e =
      let s : c ≡ a = cc in rw (sym s) (eqb-contains c b v h ∙ k b refl)

  same_entry-back :
      (o p : Option Interval) (b : Interval) (v : ℤ)
      → same_entry ids seeds folds o p ≡ true
      → ((a : Interval) → o ≡ some a → contains a v ≡ true)
      → p ≡ some b
      → contains b v ≡ true
  unfolding same_entry
  same_entry-back o none b v h k e = cc
  same_entry-back none (some d) b v h k e = cc
  same_entry-back (some c) (some d) b v h k e =
      let s : d ≡ b = cc in rw (sym s) (sym (eqb-contains c d v h) ∙ k c refl)

  same_on-entry :
      (xs : List ℕ) (s t : IntervalState) (x : ℕ)
      → same_on ids seeds folds xs s t ≡ true
      → member xs x ≡ true
      → same_entry ids seeds folds (s.iv x) (t.iv x) ≡ true
  unfolding same_on member
  same_on-entry [] s t x h m = cc
  same_on-entry (y ∷ ys) s t x h m = elim (Bool-cases (x == y)) [
    | inl e ↦ rw (==_eq x y e) (ground arith)
    | inr n ↦ same_on-entry ys s t x (ground arith) (ground arith)
  ]

  entry-member :
      (s : State ids seeds folds) (x : ℕ) (a : Interval) → s.0.iv x ≡ some a → member ids x ≡ true
  entry-member (s, h) x a e = sym (h x) ∙ ap present e

  pub same-forth :
      (s t : State ids seeds folds) (ρ : Env)
      → same ids seeds folds s.0 t.0 ≡ true
      → In ids seeds folds t ρ
      → In ids seeds folds s ρ
  unfolding same
  same-forth s t ρ h c x a e =
      same_entry-forth (s.0.iv x) (t.0.iv x) a (ρ.var x)
        (same_on-entry ids s.0 t.0 x h (entry-member s x a e)) (c x) e

  pub same-back :
      (s t : State ids seeds folds) (ρ : Env)
      → same ids seeds folds s.0 t.0 ≡ true
      → In ids seeds folds s ρ
      → In ids seeds folds t ρ
  unfolding same
  same-back s t ρ h c x a e =
      same_entry-back (s.0.iv x) (t.0.iv x) a (ρ.var x)
        (same_on-entry ids s.0 t.0 x h (entry-member t x a e)) (c x) e

  pub widen-Covers :
      (s : State ids seeds folds) (ρ : Env)
      → In ids seeds folds s ρ
      → Covers (widen ids seeds folds s.0).iv ρ
  unfolding widen widen_entry
  widen-Covers (s, h) ρ c x a e = widened (s.iv x) (c x) e
    where
      widened :
          (o : Option Interval)
          → ((b : Interval) → o ≡ some b → contains b (ρ.var x) ≡ true)
          → widen_entry ids seeds folds o ≡ some a
          → contains a (ρ.var x) ≡ true
      widened none k q = cc
      widened (some b) k q = elim (Option-cases (is_singleton b)) [
        | inl n ↦
            let t : top ≡ a = let z = rw (n, widen_entry) at q in cc in
            rw (sym t) (contains-top (ρ.var x))
        | inr p ↦
            let (d, f) = p in
            let t : b ≡ a = let z = rw (f, widen_entry) at q in cc in rw (sym t) (k b refl)
      ]
