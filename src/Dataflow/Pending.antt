-- ===== src/Dataflow/Pending.antt =====
-- engine/DataflowEngine.h: the work list holds a block once if its flag is set, and else not.
use code_skeptic.Prelude.{
  ℕ, zero, suc, ◌+◌, ◌≡◌, ap, not, ◌&&◌, Option, none, some, List, ◌∷◌, [], ◌++◌, ◌==◌, arith,
  Bool-cases, List-cases, inl, inr, if◌then◌else◌,
}
use code_skeptic.Dataflow.{Cfg, Analysis}
use code_skeptic.Dataflow.Loop.{
  Engine, entry_state, enqueue, enqueue_all, widen_entry, finish, process, visit, pop, loop, start,
  walk,
}
use code_skeptic.Dataflow.Round.{propagated, stored, record_exit-cases}

-- How often the block is on the list.
abbrev pub count : ℕ → List ℕ → ℕ
count c [] = 0
count c (b ∷ bs) = (if c == b then 1 else 0) + count c bs

count-append :
    (c b : ℕ) (bs : List ℕ) → count c (bs ++ b ∷ []) ≡ count c bs + (if c == b then 1 else 0)
count-append c b [] = ground arith
count-append c b (d ∷ bs) = omega (arith, count-append c b bs)

abbrev pub IsHonest : {State : Type 0} → Engine State → Type 0
IsHonest e = (c : ℕ) → count c e.worklist ≡ (if e.queued c then 1 else 0)

module _ {State Stmt Other Cond : Type 0} (g : Cfg Stmt Other Cond)
    (a : Analysis State Stmt Other Cond) where
  enqueue-IsHonest : (e : Engine State) (o : Option ℕ) → IsHonest e → IsHonest (enqueue g a e o)
  unfolding enqueue
  enqueue-IsHonest e none h c = h c
  enqueue-IsHonest e (some b) h c = ground (arith, h c, h b, count-append c b e.worklist)

  enqueue_all-IsHonest :
      (e : Engine State) (bs : List (Option ℕ)) → IsHonest e → IsHonest (enqueue_all g a e bs)
  unfolding enqueue_all
  enqueue_all-IsHonest e [] h = h
  enqueue_all-IsHonest e (b ∷ bs) h =
      enqueue_all-IsHonest (enqueue g a e b) bs (enqueue-IsHonest e b h)

  pop-IsHonest :
      (e : Engine State) (b : ℕ) (rest : List ℕ)
      → e.worklist ≡ b ∷ rest
      → IsHonest e
      → IsHonest (pop g a e b rest)
  unfolding pop
  pop-IsHonest e b rest w h c = ground (arith, ap (count c) w, h c)

  propagated-IsHonest :
      (e : Engine State) (b : ℕ) (s : State) → IsHonest e → IsHonest (propagated g a e b s)
  unfolding propagated stored
  propagated-IsHonest e b s h = enqueue_all-IsHonest (stored g a e b s) (g.succs b) h

  finish-IsHonest :
      (e : Engine State) (b : ℕ) (o : Option State) → IsHonest e → IsHonest (finish g a e b o)
  unfolding finish
  finish-IsHonest e b none h = h
  finish-IsHonest e b (some s) h = elim (Bool-cases (g.no_return b)) [
    | inl y ↦ rw y h
    | inr n ↦ rw n (elim (record_exit-cases g a e b s) [
      | inl p ↦ rw p (propagated-IsHonest e b s h)
      | inr q ↦ rw q.0 h
    ])
  ]

  widen_entry-IsHonest :
      (e : Engine State) (b : ℕ) (s : State) → IsHonest e → IsHonest (widen_entry g a e b s).0
  unfolding widen_entry
  widen_entry-IsHonest e b s h c = ground (arith, h c)

  visit-IsHonest : (e : Engine State) (b : ℕ) → IsHonest e → IsHonest (visit g a e b)
  unfolding visit process
  visit-IsHonest e b h =
      let (s, has) = entry_state g a e.exits b in
      let (e', s') = widen_entry g a e b s in
      elim (Bool-cases (not has && not (b == g.entry))) [
        | inl y ↦ rw y h
        | inr n ↦
            rw n (finish-IsHonest e' b (walk g a (g.elements b) s') (widen_entry-IsHonest e b s h))
      ]

  loop-IsHonest : (fuel : ℕ) (e : Engine State) → IsHonest e → IsHonest (loop g a fuel e)
  unfolding loop
  loop-IsHonest zero e h = h
  loop-IsHonest (suc fuel) e h = elim (List-cases e.worklist) [
    | inl empty ↦ rw (empty, loop) h
    | inr q ↦
        let (b, rest, w) = q in
        rw (w, loop)
          (loop-IsHonest fuel (visit g a (pop g a e b rest) b)
            (visit-IsHonest (pop g a e b rest) b (pop-IsHonest e b rest w h)))
  ]

  start-IsHonest : IsHonest (start g a)
  unfolding start enqueue
  start-IsHonest c = ground arith

  -- After any number of rounds a block is on the work list exactly once if its flag is set, and not
  -- at all if it is not.
  pub pending_once :
      (fuel c : ℕ)
      → count c (loop g a fuel (start g a)).worklist
        ≡ (if (loop g a fuel (start g a)).queued c then 1 else 0)
  pending_once fuel = loop-IsHonest fuel (start g a) start-IsHonest
