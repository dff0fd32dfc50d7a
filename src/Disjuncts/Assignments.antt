-- ===== src/Disjuncts/Assignments.antt =====
-- engine/GuardedDisjuncts.h: a path stays covered when a statement changes its store.
use code_skeptic.Prelude.{
  ℕ, ◌≡◌, refl, ap, subst, ◌∙◌, inl, inr, Bool, true, false, ◌&&◌, ◌||◌, Option, none, some, List,
  [], ◌∷◌, ◌==◌, if◌then◌else◌, Bool-cases, arith, opt_is, ==_eq,
}
use code_skeptic.Prelude.Int.{ℤ}
use code_skeptic.Condition.{Expr}
use code_skeptic.PathFacts.{FactKey, Facts, erase_facts, compare_literals}
use code_skeptic.PathFacts.Stores.{
  Store, place_value, key_holds, FactsHold, record_fact-FactsHold, erase_facts-FactsHold,
}
use code_skeptic.PathFacts.Conditions.{Ast, Keyable}
use code_skeptic.Disjuncts.{Guarded, find_var}
use code_skeptic.Disjuncts.Covers.{PathState, BelowEntry, Covers}
use code_skeptic.Disjuncts.Statements.{
  is_some, stamped, addr_of_base_var, update_facts, base_stale, erase_base, erase_for_args,
}

stamped-FactsHold :
    (t : Store) (stamp : Option FactKey) (fs : Facts)
    → ((key : FactKey) → stamp ≡ some key → key_holds t key ≡ true)
    → FactsHold t fs
    → FactsHold t (stamped stamp fs)
unfolding stamped
stamped-FactsHold t none fs h k = k
stamped-FactsHold t (some key) fs h k = record_fact-FactsHold t key true fs (h key refl) k

facts-places :
    (s t : Store) (fs : Facts)
    → ((key : FactKey) → key_holds t key ≡ key_holds s key)
    → FactsHold s fs
    → FactsHold t fs
facts-places s t [] agree h = tt
facts-places s t (f ∷ fs) agree h = (agree f.0 ∙ h.0, facts-places s t fs agree h.1)

-- The members of `done` as in `t`, all else as in `s`.
abbrev pub mix : Store → Store → (ℕ → Bool) → Store
mix s t done = record s { member = λ x f. if done x then t.member x f else s.member x f }

module _ (ast : Ast) (k : Keyable) where
  -- The bases that a call may write: those whose addresses it takes.
  abbrev pub addressed : List Expr → (ℕ → Bool) → ℕ → Bool
  addressed [] done = done
  addressed (a ∷ rest) done =
      addressed rest (λ x. done x || (k.member_base x && opt_is (addr_of_base_var ast a) x))

and_off : (a : Bool) → (a && false) ≡ false
and_off true = refl
and_off false = refl

module _ {Val : Type 0} (Le : Store → Val → Val → Type 0)
    (keeps : (s t : Store) (a b : Val) → Le s a b → Le t a b) (values : ℕ → Option Val) where
  abbrev pub at : Store → PathState Val
  at s = record { store = s; values = values }

  BelowEntry-store :
      (s t : Store) (v : Val) (o : Option Val) → BelowEntry Le s v o → BelowEntry Le t v o
  BelowEntry-store s t v none h = h
  BelowEntry-store s t v (some w) h = keeps s t v w h

  pub update_facts-Covers :
      (s t : Store) (stale : FactKey → Bool) (stamp : Option FactKey) (st : List (Guarded Val))
      → ((key : FactKey) → stale key ≡ false → key_holds t key ≡ key_holds s key)
      → ((key : FactKey) → stamp ≡ some key → key_holds t key ≡ true)
      → Covers Le (at s) st
      → Covers Le (at t) (update_facts stale stamp st)
  unfolding update_facts
  update_facts-Covers s t stale stamp [] agree fresh h = h
  update_facts-Covers s t stale stamp (d ∷ ds) agree fresh h = elim h [
    | inl here ↦ inl (
      stamped-FactsHold t stamp (erase_facts stale d.facts) fresh
          (erase_facts-FactsHold s t stale d.facts agree here.0),
      λ x v q. BelowEntry-store s t v (find_var d.vars x) (here.1 x v q),
    )
    | inr rest ↦ inr (update_facts-Covers s t stale stamp ds agree fresh rest)
  ]

  -- The facts read no more of the store than the places of their keys.
  pub places-Covers :
      (s t : Store) (st : List (Guarded Val))
      → ((key : FactKey) → key_holds t key ≡ key_holds s key)
      → Covers Le (at s) st
      → Covers Le (at t) st
  places-Covers s t [] agree h = h
  places-Covers s t (d ∷ ds) agree h = elim h [
    | inl here ↦ inl (
      facts-places s t d.facts agree here.0,
      λ x v q. BelowEntry-store s t v (find_var d.vars x) (here.1 x v q),
    )
    | inr rest ↦ inr (places-Covers s t ds agree rest)
  ]

  module _ (ast : Ast) (k : Keyable) where
    or_off : (a b : Bool) → b ≡ false → (a || b) ≡ a
    or_off true b h = refl
    or_off false b h = h

    mix-place :
        (s t : Store) (done extra : ℕ → Bool) (x : ℕ) (f : Option ℕ)
        → (is_some f ≡ true → extra x ≡ false)
        → place_value (mix s t (λ y. done y || extra y)) x f ≡ place_value (mix s t done) x f
    mix-place s t done extra x none h = refl
    mix-place s t done extra x (some f) h =
        ap (λ (b : Bool). if b then t.member x f else s.member x f)
          (or_off (done x) (extra x) (h refl))

    mix-key :
        (s t : Store) (done extra : ℕ → Bool) (key : FactKey)
        → (is_some key.field ≡ true → extra key.var ≡ false)
        → key_holds (mix s t (λ y. done y || extra y)) key ≡ key_holds (mix s t done) key
    mix-key s t done extra key h =
        ap (λ (a : ℤ). compare_literals key.rel a key.literal)
          (mix-place s t done extra key.var key.field h)

    other_base :
        (b x : ℕ) (f : Option ℕ)
        → (x == b && is_some f) ≡ false
        → is_some f ≡ true
        → (k.member_base x && opt_is (some b) x) ≡ false
    other_base b x f h g = ground arith

    banned_base :
        (b x : ℕ) → k.member_base b ≡ false → (k.member_base x && opt_is (some b) x) ≡ false
    banned_base b x h = elim (Bool-cases (b == x)) [
      | inl same ↦
          let e : k.member_base x ≡ false =
            subst (λ y. k.member_base y ≡ false) (==_eq b x same) h in
          rw e refl
      | inr apart ↦ rw apart (and_off (k.member_base x))
    ]

    erase_base-Covers :
        (s t : Store) (o : Option ℕ) (done : ℕ → Bool) (sc : List (Guarded Val) × Bool)
        → Covers Le (at (mix s t done)) sc.0
        → Covers Le
            (at (mix s t (λ x. done x || (k.member_base x && opt_is o x))))
            (erase_base ast k o sc).0
    unfolding erase_base
    erase_base-Covers s t none done sc h =
        places-Covers (mix s t done) (mix s t (λ x. done x || (k.member_base x && opt_is none x)))
          sc.0
          (λ key.
            mix-key s t done (λ x. k.member_base x && opt_is none x) key
              (λ _. and_off (k.member_base key.var)))
          h
    erase_base-Covers s t (some b) done sc h = elim (Bool-cases (k.member_base b)) [
      | inl admitted ↦ rw admitted (
          update_facts-Covers (mix s t done)
            (mix s t (λ x. done x || (k.member_base x && opt_is (some b) x))) (base_stale b) none
            sc.0
            (λ key q.
              mix-key s t done (λ x. k.member_base x && opt_is (some b) x) key
                (other_base b key.var key.field q))
            (λ key q. cc) h)
      | inr banned ↦ rw banned (
          places-Covers (mix s t done)
            (mix s t (λ x. done x || (k.member_base x && opt_is (some b) x))) sc.0
            (λ key.
              mix-key s t done (λ x. k.member_base x && opt_is (some b) x) key
                (λ _. banned_base b key.var banned))
            h)
    ]

    pub erase_for_args-Covers :
        (s t : Store) (args : List Expr) (done : ℕ → Bool) (sc : List (Guarded Val) × Bool)
        → Covers Le (at (mix s t done)) sc.0
        → Covers Le (at (mix s t (addressed ast k args done))) (erase_for_args ast k args sc).0
    unfolding erase_for_args
    erase_for_args-Covers s t [] done sc h = h
    erase_for_args-Covers s t (a ∷ rest) done sc h =
        erase_for_args-Covers s t rest
          (λ x. done x || (k.member_base x && opt_is (addr_of_base_var ast a) x))
          (erase_base ast k (addr_of_base_var ast a) sc)
          (erase_base-Covers s t (addr_of_base_var ast a) done sc h)
