-- ===== src/Dataflow/Visit.antt =====
-- engine/DataflowEngine.h: one round keeps the queue honest and covers its block.
use code_skeptic.Prelude.{
  ℕ, ◌+◌, ◌≡◌, refl, ap, ◌∙◌, Bool, true, false, not, ◌&&◌, Option, none, some, List, ◌==◌, arith,
  Bool-cases, Option-cases, inl, inr, ltb,
}
use code_skeptic.Dataflow.{Element, Cfg, Analysis}
use code_skeptic.Dataflow.Loop.{
  Engine, entry_state, walk, with_memory, widen_entry, widen_after, record_exit, finish, process,
  visit,
}
use code_skeptic.Dataflow.Semantics.{Concrete, Run, done, exec, skip, exec_other, IsSound}
use code_skeptic.Dataflow.Round.{
  Effect, Effect-refl, propagated-Effect, exits-propagated, record_exit-cases,
}

module _ {State Stmt Other Cond : Type 0} (g : Cfg Stmt Other Cond)
    (a : Analysis State Stmt Other Cond) where
  record_exit-Effect :
      (e : Engine State) (b : ℕ) (s : State) → Effect g a e (record_exit g a e b s) b
  record_exit-Effect e b s = elim (record_exit-cases g a e b s) [
    | inl p ↦ rw p (propagated-Effect g a e b s)
    | inr q ↦ rw q.0 (Effect-refl g a e b)
  ]

  finish-Effect : (e : Engine State) (b : ℕ) (o : Option State) → Effect g a e (finish g a e b o) b
  unfolding finish
  finish-Effect e b none = Effect-refl g a e b
  finish-Effect e b (some s) = elim (Bool-cases (g.no_return b)) [
    | inl y ↦ rw y (Effect-refl g a e b)
    | inr n ↦ rw n (record_exit-Effect e b s)
  ]

  exits-widen_entry :
      (e : Engine State) (b : ℕ) (s : State) → (widen_entry g a e b s).0.exits ≡ e.exits
  unfolding widen_entry
  exits-widen_entry e b s = ground arith

  queued-widen_entry :
      (e : Engine State) (b : ℕ) (s : State) → (widen_entry g a e b s).0.queued ≡ e.queued
  unfolding widen_entry
  queued-widen_entry e b s = ground arith

  process-Effect : (e : Engine State) (b : ℕ) (s : State) → Effect g a e (process g a e b s) b
  unfolding process
  process-Effect e b s =
      let (e', s') = widen_entry g a e b s in
      let f = finish-Effect e' b (walk g a (g.elements b) s') in
      record {
        others = λ c h. f.others c h ∙ ap (λ (t : ℕ → Option State). t c) (exits-widen_entry e b s);
        settled = λ p c m h.
            f.settled p c m h ∙ ap (λ (t : ℕ → Option State). t p) (exits-widen_entry e b s);
        keeps = λ c h. f.keeps c (ap (λ (t : ℕ → Bool). t c) (queued-widen_entry e b s) ∙ h);
      }

  pub visit-Effect : (e : Engine State) (b : ℕ) → Effect g a e (visit g a e b) b
  unfolding visit
  visit-Effect e b =
      let (s, has) = entry_state g a e.exits b in
      elim (Bool-cases (not has && not (b == g.entry))) [
        | inl y ↦ rw y (Effect-refl g a e b)
        | inr n ↦ rw n (process-Effect e b s)
      ]

module _ {State Store Stmt Other Cond : Type 0} (g : Cfg Stmt Other Cond)
    (a : Analysis State Stmt Other Cond) (k : Concrete Store Stmt Other Cond)
    (In : State → Store → Type 0) (sound : IsSound a k In) where
  walk_sound :
      (els : List (Element Stmt Other)) (s : State) (x y : Store)
      → Run g a k els x y
      → In s x
      → (t : State) × (walk g a els s ≡ some t) × In t y
  unfolding walk
  walk_sound els s x y done i = (s, refl, i)
  walk_sound els s x y (exec {s = c} {y = z} f h r) i =
      rw f (walk_sound _ _ z y r (sound.transfer c s x z h i))
  walk_sound els s x y (skip r) i = walk_sound _ s x y r i
  walk_sound els s x y (exec_other {o = o} {y = z} h r) i =
      walk_sound _ _ z y r (sound.transfer_element o s x z h i)

  -- A stored exit state that covers `x`.
  abbrev pub Stored : Engine State → ℕ → Store → Type 0
  Stored e b x = (t : State) × (e.exits b ≡ some t) × In t x

  record_exit_sound :
      (e : Engine State) (b : ℕ) (s : State) (x : Store)
      → In s x
      → Stored (record_exit g a e b s) b x
  record_exit_sound e b s x i = elim (record_exit-cases g a e b s) [
    | inl p ↦
        rw p (s, exits-propagated g a e b s b ∙ (let r : (b == b) ≡ true = ground arith in rw r), i)
    | inr q ↦ let (p, (old, eo, same)) = q in rw p (old, eo, sound.same old s x same i)
  ]

  with_memory_sound :
      (m : Option State) (s : State) (x : Store) → In s x → In (with_memory g a m s) x
  unfolding with_memory
  with_memory_sound none s x i = i
  with_memory_sound (some m) s x i = sound.merge_right m s x i

  widen_entry_sound :
      (e : Engine State) (b : ℕ) (s : State) (x : Store) → In s x → In (widen_entry g a e b s).1 x
  unfolding widen_entry widen_after with_memory
  widen_entry_sound e b s x i = elim (Option-cases a.widen) [
    | inl no_ ↦ rw no_ i
    | inr p ↦
        let (f, ef) = p in
        elim (Bool-cases (ltb (widen_after g a) (e.visits b + 1))) [
          | inl y ↦ rw (ef, y) (sound.widen f ef _ x (with_memory_sound (e.widened b) s x i))
          | inr n ↦ rw (ef, n) i
        ]
  ]

  process_sound :
      (e : Engine State) (b : ℕ) (s : State) (x y : Store)
      → In s x
      → Run g a k (g.elements b) x y
      → g.no_return b ≡ false
      → Stored (process g a e b s) b y
  unfolding process finish
  process_sound e b s x y i r n =
      let (e', s') = widen_entry g a e b s in
      let (t, et, it) = walk_sound (g.elements b) s' x y r (widen_entry_sound e b s x i) in
      rw (et, n) (record_exit_sound e' b t y it)

  pub visit_sound :
      (e : Engine State) (b : ℕ) (x y : Store)
      → (not (entry_state g a e.exits b).1 && not (b == g.entry)) ≡ false
      → In (entry_state g a e.exits b).0 x
      → Run g a k (g.elements b) x y
      → g.no_return b ≡ false
      → Stored (visit g a e b) b y
  unfolding visit
  visit_sound e b x y h i r n = rw h (process_sound e b (entry_state g a e.exits b).0 x y i r n)
