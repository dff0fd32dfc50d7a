-- ===== src/Dataflow/Round.antt =====
-- engine/DataflowEngine.h: what one round of the work list leaves behind.
use code_skeptic.Prelude.{
  ℕ, ◌≡◌, refl, ◌∙◌, true, false, Option, none, some, List, [], ◌∷◌, ◌==◌, arith, Bool-cases,
  Option-cases, inl, inr, ◌⊎◌, if◌then◌else◌, update,
}
use mathlib.Core.List.{Memᴰ}
use mathlib.Core.List.Memᴰ
use code_skeptic.Dataflow.{Cfg, Analysis}
use code_skeptic.Dataflow.Loop.{Engine, enqueue, enqueue_all, record_exit}

module _ {State Stmt Other Cond : Type 0} (g : Cfg Stmt Other Cond)
    (a : Analysis State Stmt Other Cond) where
  exits-enqueue_all :
      (e : Engine State) (bs : List (Option ℕ)) → (enqueue_all g a e bs).exits ≡ e.exits
  unfolding enqueue_all enqueue
  exits-enqueue_all e [] = refl
  exits-enqueue_all e (none ∷ bs) = exits-enqueue_all e bs
  exits-enqueue_all e (some b ∷ bs) = exits-enqueue_all (enqueue g a e (some b)) bs ∙ ground arith

  -- Queueing only adds.
  enqueue-keeps :
      (e : Engine State) (o : Option ℕ) (c : ℕ)
      → e.queued c ≡ true
      → (enqueue g a e o).queued c ≡ true
  unfolding enqueue
  enqueue-keeps e none c h = h
  enqueue-keeps e (some b) c h = ground arith

  enqueue-adds : (e : Engine State) (b : ℕ) → (enqueue g a e (some b)).queued b ≡ true
  unfolding enqueue
  enqueue-adds e b = ground arith

  enqueue_all-keeps :
      (e : Engine State) (bs : List (Option ℕ)) (c : ℕ)
      → e.queued c ≡ true
      → (enqueue_all g a e bs).queued c ≡ true
  unfolding enqueue_all
  enqueue_all-keeps e [] c h = h
  enqueue_all-keeps e (b ∷ bs) c h =
      enqueue_all-keeps (enqueue g a e b) bs c (enqueue-keeps e b c h)

  enqueue_all-adds :
      (e : Engine State) (bs : List (Option ℕ)) (c : ℕ)
      → Memᴰ (some c) bs
      → (enqueue_all g a e bs).queued c ≡ true
  unfolding enqueue_all
  enqueue_all-adds e [] c m = elim m [ ]
  enqueue_all-adds e (b ∷ bs) c m = elim (Memᴰ.cases_cons m) [
    | inl same ↦ enqueue_all-keeps (enqueue g a e b) bs c (rw (← same) (enqueue-adds e c))
    | inr later ↦ enqueue_all-adds (enqueue g a e b) bs c later
  ]

  -- What a round on block `b` may change: the exit of `b` alone, and then the successors of `b`
  -- are all queued; nothing leaves the queue.
  pub record Effect (e e' : Engine State) (b : ℕ) : Type 0 where
    pub others : (c : ℕ) → (c == b) ≡ false → e'.exits c ≡ e.exits c
    pub settled :
        (p c : ℕ) → Memᴰ (some c) (g.succs p) → e'.queued c ≡ false → e'.exits p ≡ e.exits p
    pub keeps : (c : ℕ) → e.queued c ≡ true → e'.queued c ≡ true

  pub Effect-refl : (e : Engine State) (b : ℕ) → Effect e e b
  Effect-refl e b = record { others = λ c h. refl; settled = λ p c m h. refl; keeps = λ c h. h }

  unfoldable pub stored : Engine State → ℕ → State → Engine State
  stored e b s = record e { exits = update e.exits b (some s) }

  unfoldable pub propagated : Engine State → ℕ → State → Engine State
  propagated e b s = enqueue_all g a (stored e b s) (g.succs b)

  pub exits-propagated :
      (e : Engine State) (b : ℕ) (s : State) (c : ℕ)
      → (propagated e b s).exits c ≡ (if c == b then some s else e.exits c)
  unfolding propagated stored
  exits-propagated e b s c = rw exits-enqueue_all

  propagated-queues :
      (e : Engine State) (b : ℕ) (s : State) (c : ℕ)
      → Memᴰ (some c) (g.succs b)
      → (propagated e b s).queued c ≡ true
  unfolding propagated
  propagated-queues e b s c m = enqueue_all-adds (stored e b s) (g.succs b) c m

  propagated-settled :
      (e : Engine State) (b : ℕ) (s : State) (p c : ℕ)
      → Memᴰ (some c) (g.succs p)
      → (propagated e b s).queued c ≡ false
      → (propagated e b s).exits p ≡ e.exits p
  propagated-settled e b s p c m h = elim (Bool-cases (p == b)) [
    | inl same ↦ let r : p ≡ b = ground arith in cc (h, propagated-queues e b s c (rw r at m))
    | inr other_ ↦ exits-propagated e b s p ∙ rw other_
  ]

  pub propagated-Effect : (e : Engine State) (b : ℕ) (s : State) → Effect e (propagated e b s) b
  propagated-Effect e b s = record {
    others = λ c h. exits-propagated e b s c ∙ rw h;
    settled = propagated-settled e b s;
    keeps = λ c h. unfold propagated stored in enqueue_all-keeps (stored e b s) (g.succs b) c h;
  }

  pub record_exit-cases :
      (e : Engine State) (b : ℕ) (s : State)
      → (record_exit g a e b s ≡ propagated e b s)
        ⊎ ((record_exit g a e b s ≡ e)
            × ((old : State) × (e.exits b ≡ some old) × (a.same old s ≡ true)))
  unfolding record_exit propagated stored
  record_exit-cases e b s = elim (Option-cases (e.exits b)) [
    | inl q ↦ inl (rw (q, record_exit))
    | inr p ↦
        let (old, q) = p in
        elim (Bool-cases (a.same old s)) [
          | inl y ↦ inr (rw (q, record_exit) (rw y), (old, q, y))
          | inr n ↦ inl (rw (q, record_exit) (rw n))
        ]
  ]
