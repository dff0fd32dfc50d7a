-- ===== src/Disjuncts/Lifecycle.antt =====
-- engine/GuardedDisjuncts.h: `applyStmtFacts` keeps the paths that run the statement.
use code_skeptic.Prelude.{
  ℕ, ◌≡◌, refl, sym, ap, ◌∙◌, inl, inr, Bool, true, false, ◌&&◌, ◌||◌, Option, none, some,
  Option-cases, List, ◌==◌, if◌then◌else◌, Bool-cases, arith, opt_eq, ◌≢◌,
}
use code_skeptic.Prelude.Int.{ℤ, pos, eqb_ℤ}
use code_skeptic.Condition.{Var, Expr}
use code_skeptic.IntervalEval.Assign.{Call, Stmt, declare, evaluate, call, other_stmt}
use code_skeptic.PathFacts.{FactKey, var_key, equals, compare_literals}
use code_skeptic.PathFacts.Stores.{Store, place_value, key_holds}
use code_skeptic.PathFacts.Conditions.{Ast, Keyable, int_literal_value, member_key}
use code_skeptic.PathFacts.Keying.{IsRead, int_literal_value-eval}
use code_skeptic.Disjuncts.{Guarded, GuardedOps}
use code_skeptic.Disjuncts.Covers.{Covers, IsSoundOps}
use code_skeptic.Disjuncts.Normalize.{normalize_guarded-Covers}
use code_skeptic.Disjuncts.Statements.{
  assigned_decl, MemberAssign, is_some, assigned_int_literal, assigned_member_fact, member_stale,
  member_stamp, var_stale, apply_member_stmt_facts, erase_for_args, erase_member_facts_at_call,
  normalize_changed, literal_stamp, apply_stmt_facts,
}
use code_skeptic.Disjuncts.Assignments.{
  at, update_facts-Covers, places-Covers, addressed, mix, erase_for_args-Covers,
}
use code_skeptic.Disjuncts.Execution.{
  literal_expr, member_literal_expr, call_addresses, touches, Runs, IsStored,
}

and_off : (a : Bool) → (a && false) ≡ false
and_off true = refl
and_off false = refl

key-places :
    (s t : Store) (key : FactKey)
    → place_value t key.var key.field ≡ place_value s key.var key.field
    → key_holds t key ≡ key_holds s key
key-places s t key h = ap (λ (a : ℤ). compare_literals key.rel a key.literal) h

equals-holds : (a c : ℤ) → a ≡ c → compare_literals equals a c ≡ true
unfolding compare_literals
equals-holds a c h = ground arith

module _ (ast : Ast) (k : Keyable) (stampable ptr_stampable : ℕ → Bool) (s t : Store)
    (read : IsRead ast s) where
  stored-literal :
      (w : ℤ) (e : Expr) (c : ℤ) → IsStored ast k s w e → int_literal_value ast e ≡ some c → w ≡ c
  stored-literal w e c h q = h.2 ∙ int_literal_value-eval ast s read e c h.0 h.1 q

  module _ {Val : Type 0} (Le : Store → Val → Val → Type 0)
      (keeps : (s t : Store) (a b : Val) → Le s a b → Le t a b) (values : ℕ → Option Val)
      (ops : GuardedOps Val) (sound : IsSoundOps Le ops) where
    literal_stamp-holds :
        (stmt : Stmt) (target : Var) (key : FactKey)
        → Runs ast k stmt s t
        → assigned_decl stmt ≡ some target
        → literal_stamp ast k ops stampable ptr_stampable target (assigned_int_literal ast stmt)
          ≡ some key
        → key_holds t key ≡ true
    unfolding literal_stamp
    literal_stamp-holds stmt target key run d q =
        elim (Option-cases (assigned_int_literal ast stmt)) [
          | inl missing ↦ let q' = rw (missing, literal_stamp) at q in cc
          | inr found ↦
              let (l, e) = found in
              let (expr, stored, lit) = literal_expr ast stmt l e in
              let value : t.env.var target.id ≡ l.1 =
                stored-literal (t.env.var target.id) expr l.1 (run.var_value target expr d stored)
                  lit in
              elim (Bool-cases
                (stampable target.id || (ptr_stampable target.id && eqb_ℤ l.1 (pos 0)))) [
                  | inl stamped_key ↦
                      let q' : some (var_key target.id equals l.1) ≡ some key =
                        rw (e, literal_stamp, stamped_key) at q in
                      let same : var_key target.id equals l.1 ≡ key = cc in
                      ap (key_holds t) (sym same) ∙ equals-holds (t.env.var target.id) l.1 value
                  | inr not_asked ↦ let q' = rw (e, literal_stamp, not_asked) at q in cc
                ]
        ]

    member_stamp-holds :
        (stmt : Stmt) (m : MemberAssign) (key : FactKey)
        → Runs ast k stmt s t
        → assigned_member_fact ast k stmt ≡ some m
        → member_stamp m ≡ some key
        → key_holds t key ≡ true
    member_stamp-holds stmt m key run d q = elim (Option-cases m.literal) [
      | inl missing ↦ let q' = rw missing at q in cc
      | inr found ↦
          let (c, e) = found in
          let (expr, stored, lit) = member_literal_expr ast k stmt m c d e in
          let value : t.member m.base m.field ≡ c =
            stored-literal (t.member m.base m.field) expr c (run.member_value m expr d stored)
              lit in
          let q' : some (member_key (m.base, m.field) c) ≡ some key = rw e at q in
          let same : member_key (m.base, m.field) c ≡ key = cc in
          ap (key_holds t) (sym same) ∙ equals-holds (t.member m.base m.field) c value
    ]

    normalize_changed-Covers :
        (sc : List (Guarded Val) × Bool)
        → Covers Le (at Le keeps values t) sc.0
        → Covers Le
            (at Le keeps values t)
            (normalize_changed ast k ops stampable ptr_stampable sc).0
    unfolding normalize_changed
    normalize_changed-Covers sc h = elim (Bool-cases sc.1) [
      | inl changed ↦
          rw changed (normalize_guarded-Covers Le ops sound (at Le keeps values t) sc.0 h)
      | inr unchanged ↦ rw unchanged h
    ]

    touched_var :
        (stmt : Stmt) (target : Var) (x : ℕ) (f : Option ℕ)
        → assigned_decl stmt ≡ some target
        → (x == target.id) ≡ false
        → touches ast k stmt x f ≡ false
    touched_var stmt target x f d h = rw (d, touches) h

    touched_member :
        (stmt : Stmt) (m : MemberAssign) (x : ℕ) (f : Option ℕ)
        → assigned_decl stmt ≡ none
        → assigned_member_fact ast k stmt ≡ some m
        → (x == m.base && opt_eq f (some m.field)) ≡ false
        → touches ast k stmt x f ≡ false
    touched_member stmt m x f d e h = rw (d, e, touches) h

    touched_none :
        (stmt : Stmt) (x : ℕ) (f : Option ℕ)
        → assigned_decl stmt ≡ none
        → assigned_member_fact ast k stmt ≡ none
        → call_addresses ast k stmt x ≡ false
        → touches ast k stmt x f ≡ false
    touched_none stmt x f d e h = rw (d, e, touches) (rw h (and_off (is_some f)))

    member_facts-Covers :
        (stmt : Stmt) (state : List (Guarded Val))
        → Runs ast k stmt s t
        → assigned_decl stmt ≡ none
        → ((x : ℕ) → call_addresses ast k stmt x ≡ false)
        → Covers Le (at Le keeps values s) state
        → Covers Le (at Le keeps values t) (apply_member_stmt_facts ast k state stmt).0
    unfolding apply_member_stmt_facts
    member_facts-Covers stmt state run d quiet h =
        elim (Option-cases (assigned_member_fact ast k stmt)) [
          | inl plain ↦
              rw (plain, apply_member_stmt_facts)
                (places-Covers Le keeps values s t state
                  (λ key. key-places s t key (
                    run.keeps_places key.var key.field
                      (touched_none stmt key.var key.field d plain (quiet key.var))))
                  h)
          | inr found ↦
              let (m, e) = found in
              rw (e, apply_member_stmt_facts)
                (update_facts-Covers Le keeps values s t (member_stale m) (member_stamp m) state
                  (λ key q. key-places s t key (
                    run.keeps_places key.var key.field
                      (touched_member stmt m key.var key.field d e q)))
                  (λ key q. member_stamp-holds stmt m key run e q) h)
        ]

    mix_none_place :
        (x : ℕ) (f : Option ℕ) → place_value (mix s t (λ _. false)) x f ≡ place_value s x f
    mix_none_place x none = refl
    mix_none_place x (some f) = refl

    mix_none : (key : FactKey) → key_holds (mix s t (λ _. false)) key ≡ key_holds s key
    mix_none key = key-places s (mix s t (λ _. false)) key (mix_none_place key.var key.field)

    mix_all :
        (args : List Expr) (c : Stmt) (x : ℕ) (f : Option ℕ)
        → ((f : Option ℕ)
            → (is_some f && addressed ast k args (λ _. false) x) ≡ false
            → place_value t x f ≡ place_value s x f)
        → place_value t x f ≡ place_value (mix s t (addressed ast k args (λ _. false))) x f
    mix_all args c x none h = h none refl
    mix_all args c x (some f) h = elim (Bool-cases (addressed ast k args (λ _. false) x)) [
      | inl written ↦ rw written refl
      | inr kept ↦ rw kept (h (some f) kept)
    ]

    call-Covers :
        (c : Call) (state : List (Guarded Val))
        → Runs ast k (call c) s t
        → Covers Le (at Le keeps values s) state
        → Covers Le (at Le keeps values t) (erase_for_args ast k c.args (state, false)).0
    unfolding assigned_decl assigned_member_fact
    call-Covers c state run h =
        places-Covers Le keeps values (mix s t (addressed ast k c.args (λ _. false))) t
          (erase_for_args ast k c.args (state, false)).0
          (λ key.
            key-places (mix s t (addressed ast k c.args (λ _. false))) t key
              (mix_all c.args (call c) key.var key.field (λ f q. run.keeps_places key.var f q)))
          (erase_for_args-Covers Le keeps values ast k s t c.args (λ _. false) (state, false)
            (places-Covers Le keeps values s (mix s t (λ _. false)) state mix_none h))

    no_call :
        (stmt : Stmt)
        → ((c : Call) → stmt ≢ call c)
        → ((x : ℕ) → call_addresses ast k stmt x ≡ false)
          × ((sc : List (Guarded Val) × Bool) → erase_member_facts_at_call ast k stmt sc ≡ sc)
    unfolding erase_member_facts_at_call
    no_call (call c) h = absurd (h c refl)
    no_call (declare ds) h = (λ x. refl, λ sc. refl)
    no_call (evaluate e) h = (λ x. refl, λ sc. refl)
    no_call other_stmt h = (λ x. refl, λ sc. refl)

    either_branch : (b : Bool) (sc : List (Guarded Val) × Bool) → (if b then sc else sc) ≡ sc
    either_branch true sc = refl
    either_branch false sc = refl

    other_case :
        (erase : Bool) (stmt : Stmt) (state : List (Guarded Val))
        → ((c : Call) → stmt ≢ call c)
        → Runs ast k stmt s t
        → assigned_decl stmt ≡ none
        → Covers Le (at Le keeps values s) state
        → Covers Le
            (at Le keeps values t)
            (if erase
              then erase_member_facts_at_call ast k stmt (apply_member_stmt_facts ast k state stmt)
              else apply_member_stmt_facts ast k state stmt).0
    other_case erase stmt state plain run d h =
        let (quiet, same) = no_call stmt plain in
        rw (same (apply_member_stmt_facts ast k state stmt)) (
          rw (either_branch erase (apply_member_stmt_facts ast k state stmt))
            (member_facts-Covers stmt state run d quiet h))

    member_case :
        (erase : Bool) (stmt : Stmt) (state : List (Guarded Val))
        → (erase ≡ false → (x : ℕ) → call_addresses ast k stmt x ≡ false)
        → Runs ast k stmt s t
        → assigned_decl stmt ≡ none
        → Covers Le (at Le keeps values s) state
        → Covers Le
            (at Le keeps values t)
            (if erase
              then erase_member_facts_at_call ast k stmt (apply_member_stmt_facts ast k state stmt)
              else apply_member_stmt_facts ast k state stmt).0
    unfolding erase_member_facts_at_call apply_member_stmt_facts assigned_member_fact
    member_case true (call c) state quiet run d h = call-Covers c state run h
    member_case false (call c) state quiet run d h =
        member_facts-Covers (call c) state run d (quiet refl) h
    member_case erase (declare ds) state quiet run d h =
        other_case erase (declare ds) state (λ c q. cc) run d h
    member_case erase (evaluate e) state quiet run d h =
        other_case erase (evaluate e) state (λ c q. cc) run d h
    member_case erase other_stmt state quiet run d h =
        other_case erase other_stmt state (λ c q. cc) run d h

    -- A path that runs a statement is covered by the state after it if it was covered before. The
    -- statement writes the places that it assigns, and a call the members of admitted bases whose
    -- addresses it takes; without the erasure at calls no call takes such an address. An assigned
    -- place gets the value of its expression, where no implicit cast changes a value and no literal
    -- reaches the sign bit of its type. Before the statement null pointer constants are zero, an
    -- access of a member has the member's value, a call of a function that returns a constant has one
    -- value, and an enum constant has that of its bits, which are below the sign bit where its type is
    -- unsigned. The analysis's lattice laws hold, and its order of values does not depend on the
    -- store.
    pub apply_stmt_facts_sound :
        (erase_member_calls : Bool) (stmt : Stmt) (state : List (Guarded Val))
        → (erase_member_calls ≡ false → (x : ℕ) → call_addresses ast k stmt x ≡ false)
        → Runs ast k stmt s t
        → Covers Le (at Le keeps values s) state
        → Covers Le
            (at Le keeps values t)
            (apply_stmt_facts ast k ops stampable ptr_stampable erase_member_calls state stmt).0
    unfolding apply_stmt_facts
    apply_stmt_facts_sound erase stmt state quiet run h = elim (Option-cases (assigned_decl stmt)) [
      | inl other ↦
          rw (other, apply_stmt_facts)
            (normalize_changed-Covers _ (member_case erase stmt state quiet run other h))
      | inr found ↦
          let (target, d) = found in
          rw (d, apply_stmt_facts)
            (normalize_changed-Covers _ (
              update_facts-Covers Le keeps values s t (var_stale target)
                (literal_stamp ast k ops stampable ptr_stampable target
                  (assigned_int_literal ast stmt))
                state
                (λ key q. key-places s t key (
                  run.keeps_places key.var key.field
                    (touched_var stmt target key.var key.field d q)))
                (λ key q. literal_stamp-holds stmt target key run d q) h))
    ]
