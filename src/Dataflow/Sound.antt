-- ===== src/Dataflow/Sound.antt =====
-- engine/DataflowEngine.h: when the work list runs dry, the exit states cover every execution.
use code_skeptic.Prelude.{
  ℕ, zero, suc, ◌≡◌, sym, subst, ap, ◌∙◌, Bool, true, false, not, ◌&&◌, Option, none, some, List,
  [], ◌==◌, arith, Bool-cases, inl, inr, is_nil, ==_eq, Option-cases, List-cases,
}
use mathlib.Core.List.{Memᴰ}
use code_skeptic.Dataflow.{Cfg, Analysis, Exits, merge_preds}
use code_skeptic.Dataflow.Loop.{
  Engine, enqueue, entry_state, rewind, rewind_preds, visit, pop, loop, start, run_dataflow,
  result_of, max_iterations,
}
use code_skeptic.Dataflow.Semantics.{Concrete, Run, Passes, AtExit, follow, IsGraph, IsSound}
use code_skeptic.Dataflow.Entry.{entry_state_sound}
use code_skeptic.Dataflow.Round.{Effect}
use code_skeptic.Dataflow.Pending.{count, IsHonest, pending_once}
use code_skeptic.Dataflow.Visit.{visit-Effect, visit_sound, Stored}

module _ {State Store Stmt Other Cond : Type 0} (g : Cfg Stmt Other Cond)
    (a : Analysis State Stmt Other Cond) (k : Concrete Store Stmt Other Cond)
    (In : State → Store → Type 0) (graph : IsGraph g) (sound : IsSound a k In) where
  -- A block that is not queued stores a state for every run that its predecessors' exits allow.
  record IsCovered (e : Engine State) : Type 0 where
    pub edges :
        (p b : ℕ) (s : State) (x y : Store)
        → e.queued b ≡ false
        → Memᴰ (some b) (g.succs p)
        → e.exits p ≡ some s
        → In s x
        → Passes g a k p b x
        → Run g a k (g.elements b) x y
        → g.no_return b ≡ false
        → Stored g a k In sound e b y
    pub entry :
        (x y : Store)
        → e.queued g.entry ≡ false
        → k.Initial x
        → Run g a k (g.elements g.entry) x y
        → g.no_return g.entry ≡ false
        → Stored g a k In sound e g.entry y

  rewind_preds-nil :
      (f : Cond → Bool → State → State) (exits : Exits State) (ps : List (Option ℕ))
      → ps ≡ []
      → rewind_preds g a f exits ps ≡ none
  unfolding rewind_preds
  rewind_preds-nil f exits ps e = rw e

  rewind-entry : (exits : Exits State) → rewind g a exits g.entry ≡ none
  unfolding rewind
  rewind-entry exits = elim (Option-cases a.refine) [
    | inl e ↦ rw (e, rewind)
    | inr p ↦
        let (f, e) = p in
        rw (e, rewind) (rewind_preds-nil f exits (g.preds g.entry) graph.entry_first)
  ]

  merge_preds-nil :
      (exits : Exits State) (b : ℕ) (acc : State × Bool) (ps : List (Option ℕ))
      → ps ≡ []
      → merge_preds g a exits b acc ps ≡ acc
  unfolding merge_preds
  merge_preds-nil exits b acc ps e = rw e

  entry_state-entry : (exits : Exits State) → entry_state g a exits g.entry ≡ (a.initial, false)
  unfolding entry_state
  entry_state-entry exits =
      rw (rewind-entry exits, entry_state)
        (merge_preds-nil exits g.entry (a.initial, false) (g.preds g.entry) graph.entry_first)

  -- One round on the head of the list keeps every settled block covered.
  module _ (e : Engine State) (b : ℕ) (rest : List ℕ) (cov : IsCovered e) where
    abbrev popped : Engine State
    popped = pop g a e b rest

    abbrev after : Engine State
    after = visit g a popped b

    effect : Effect g a popped after b
    effect = visit-Effect g a popped b

    unqueued : (c : ℕ) → (c == b) ≡ false → after.queued c ≡ false → e.queued c ≡ false
    unqueued c ne q = elim (Bool-cases (e.queued c)) [
      | inl y ↦ cc (q, effect.keeps c (unfold pop in rw ne y))
      | inr n ↦ n
    ]

    kept :
        (c : ℕ) (y : Store)
        → (c == b) ≡ false
        → Stored g a k In sound e c y
        → Stored g a k In sound after c y
    kept c y ne st = let (t, et, it) = st in (t, effect.others c ne ∙ (unfold pop in et), it)

    -- The popped block sees the exits of the round's start.
    seen :
        (p c : ℕ) (s : State)
        → Memᴰ (some c) (g.succs p)
        → after.queued c ≡ false
        → after.exits p ≡ some s
        → popped.exits p ≡ some s
    seen p c s m q ep = sym (effect.settled p c m q) ∙ ep

    at_block :
        (p c : ℕ) (s : State) (x y : Store)
        → c ≡ b
        → Memᴰ (some c) (g.succs p)
        → popped.exits p ≡ some s
        → In s x
        → Passes g a k p c x
        → Run g a k (g.elements c) x y
        → g.no_return c ≡ false
        → Stored g a k In sound after c y
    at_block p c s x y same m ep i pass run n =
        let (has, is_in) =
          entry_state_sound g a k In sound popped.exits c p s x (graph.listed p c m) ep pass i in
        rw same (
          visit_sound g a k In sound popped b x y (rw same at (skips c has)) (rw same at is_in)
            (rw same at run) (rw same at n))
      where
        skips :
            (d : ℕ)
            → (entry_state g a popped.exits d).1 ≡ true
            → (not (entry_state g a popped.exits d).1 && not (d == g.entry)) ≡ false
        skips d h = rw h

    edges_after :
        (p c : ℕ) (s : State) (x y : Store)
        → after.queued c ≡ false
        → Memᴰ (some c) (g.succs p)
        → after.exits p ≡ some s
        → In s x
        → Passes g a k p c x
        → Run g a k (g.elements c) x y
        → g.no_return c ≡ false
        → Stored g a k In sound after c y
    edges_after p c s x y q m ep i pass run n = elim (Bool-cases (c == b)) [
      | inl same ↦ at_block p c s x y (==_eq c b same) m (seen p c s m q ep) i pass run n
      | inr ne ↦
          kept c y ne
            (cov.edges p c s x y (unqueued c ne q) m (unfold pop in seen p c s m q ep) i pass run n)
    ]

    entry_after :
        (x y : Store)
        → after.queued g.entry ≡ false
        → k.Initial x
        → Run g a k (g.elements g.entry) x y
        → g.no_return g.entry ≡ false
        → Stored g a k In sound after g.entry y
    entry_after x y q i run n = elim (Bool-cases (g.entry == b)) [
      | inl same ↦ at_entry (==_eq g.entry b same)
      | inr ne ↦ kept g.entry y ne (cov.entry x y (unqueued g.entry ne q) i run n)
    ]
      where
        visited : Stored g a k In sound (visit g a popped g.entry) g.entry y
        visited =
            visit_sound g a k In sound popped g.entry x y
              (let r : (g.entry == g.entry) ≡ true = ground arith in
                rw (entry_state-entry popped.exits) (rw r))
              (rw (entry_state-entry popped.exits) (sound.initial x i)) run n

        at_entry : g.entry ≡ b → Stored g a k In sound after g.entry y
        at_entry same =
            subst (λ d. Stored g a k In sound (visit g a popped d) g.entry y) same visited

    round-IsCovered : IsCovered after
    round-IsCovered = record { edges = edges_after; entry = entry_after }

  loop-IsCovered : (fuel : ℕ) (e : Engine State) → IsCovered e → IsCovered (loop g a fuel e)
  unfolding loop
  loop-IsCovered zero e c = c
  loop-IsCovered (suc fuel) e c = elim (List-cases e.worklist) [
    | inl empty ↦ rw (empty, loop) c
    | inr q ↦
        let (b, rest, w) = q in
        rw (w, loop)
          (loop-IsCovered fuel (visit g a (pop g a e b rest) b) (round-IsCovered e b rest c))
  ]

  start-IsCovered : IsCovered (start g a)
  unfolding start enqueue
  start-IsCovered = record {
    edges = λ p b s x y q m ep i pass run n. cc;
    entry = λ x y q i run n. absurd (ground arith);
  }

  nothing_queued :
      (e : Engine State) (c : ℕ) → IsHonest e → is_nil e.worklist ≡ true → e.queued c ≡ false
  nothing_queued e c h n = elim (List-cases e.worklist) [
    | inl empty ↦ ground (arith, h c, ap (count c) empty)
    | inr q ↦ let (b, rest, w) = q in cc (rw w at n)
  ]

  covered_at_exit :
      (e : Engine State)
      → IsCovered e
      → ((c : ℕ) → e.queued c ≡ false)
      → (b : ℕ) (x : Store) → AtExit g a k b x
      → Stored g a k In sound e b x
  covered_at_exit e cov q b x (AtExit.start {x = z} i run n) = cov.entry z x (q g.entry) i run n
  covered_at_exit e cov q b x (follow {p = p} {x = z} r m pass run n) =
      let (s, es, is_in) = covered_at_exit e cov q p z r in
      cov.edges p b s z x (q b) m es is_in pass run n

  -- When the loop ends with an empty work list before its limit, every concrete state in which an
  -- execution leaves a block is covered by the exit state that is stored for that block. The
  -- graph lists each edge at both ends, nothing leads to its entry, and the analysis satisfies the laws of `IsSound`.
  pub run_dataflow_sound :
      (b : ℕ) (x : Store)
      → (run_dataflow g a).converged ≡ true
      → AtExit g a k b x
      → (s : State) × ((run_dataflow g a).block_exits b ≡ some s) × In s x
  unfolding run_dataflow result_of
  run_dataflow_sound b x c r =
      let e = loop g a (max_iterations g a) (start g a) in
      covered_at_exit e (loop-IsCovered (max_iterations g a) (start g a) start-IsCovered)
        (λ d. nothing_queued e d (pending_once g a (max_iterations g a)) c) b x r
