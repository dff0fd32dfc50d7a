-- ===== src/Dataflow/Entry.antt =====
-- engine/DataflowEngine.h: the entry state of a block covers what its incoming edges deliver.
use code_skeptic.Prelude.{
  ℕ, ◌≡◌, refl, sym, ap, ◌∙◌, Bool, true, false, not, ◌&&◌, Option, none, some, List, [], ◌∷◌, ◌==◌,
  arith, Bool-cases, Option-cases, inl, inr, ◌⊎◌,
}
use mathlib.Core.List.{Memᴰ}
use mathlib.Core.List.Memᴰ
use code_skeptic.Dataflow.{
  Cfg, Analysis, Exits, branch, refined, assume, edge_state, add_state, from_pred, merge_preds,
}
use code_skeptic.Dataflow.Loop.{
  arms_pure, rewind_at, rewind_arms, rewind_preds, rewind, entry_state,
}
use code_skeptic.Dataflow.Semantics.{Concrete, Passes, IsSound}

module _ {State Store Stmt Other Cond : Type 0} (g : Cfg Stmt Other Cond)
    (a : Analysis State Stmt Other Cond) (k : Concrete Store Stmt Other Cond)
    (In : State → Store → Type 0) (sound : IsSound a k In) where
  refined_sound :
      (c : Cond) (sense : Bool) (s : State) (x : Store)
      → k.Holds c sense x
      → In s x
      → In (refined g a c sense s) x
  refined_sound c sense s x h i = elim (Option-cases a.refine) [
    | inl e ↦ rw e i
    | inr p ↦ let (f, e) = p in rw e (sound.refine f e c sense s x h i)
  ]

  assume_sound :
      (o : Option (Cond × Bool)) (s : State) (x : Store)
      → ((c : Cond) (sense : Bool) → o ≡ some (c, sense) → k.Holds c sense x)
      → In s x
      → (t : State) × (assume g a o s ≡ some t) × In t x
  unfolding assume
  assume_sound none s x p i = (s, refl, i)
  assume_sound (some (c, sense)) s x p i = elim (Bool-cases (a.infeasible c sense)) [
    | inl e ↦ absurd (sound.infeasible c sense x e (p c sense refl))
    | inr e ↦ (refined g a c sense s, rw e, refined_sound c sense s x (p c sense refl) i)
  ]

  from_pred_sound :
      (exits : Exits State) (p b : ℕ) (s : State) (x : Store)
      → exits p ≡ some s
      → Passes g a k p b x
      → In s x
      → (t : State) × (from_pred g a exits b (some p) ≡ some t) × In t x
  unfolding from_pred edge_state
  from_pred_sound exits p b s x e h i = rw (e, from_pred) (assume_sound (branch g a p b) s x h i)

  abbrev Covers : State × Bool → Store → Type 0
  Covers acc x = (acc.1 ≡ true) × In acc.0 x

  add_keeps :
      (s : State) (has : Bool) (o : Option State) (x : Store)
      → Covers (s, has) x
      → Covers (add_state g a (s, has) o) x
  unfolding add_state
  add_keeps s has none x c = c
  add_keeps s true (some t) x c = (refl, sound.merge_left s t x c.1)
  add_keeps s false (some t) x c = cc (c.0)

  add_new :
      (s : State) (has : Bool) (o : Option State) (t : State) (x : Store)
      → o ≡ some t
      → In t x
      → Covers (add_state g a (s, has) o) x
  unfolding add_state
  add_new s true o t x e i = rw e (refl, sound.merge_right s t x i)
  add_new s false o t x e i = rw e (refl, i)

  merge_keeps :
      (exits : Exits State) (b : ℕ) (s : State) (has : Bool) (ps : List (Option ℕ)) (x : Store)
      → Covers (s, has) x
      → Covers (merge_preds g a exits b (s, has) ps) x
  unfolding merge_preds
  merge_keeps exits b s has [] x c = c
  merge_keeps exits b s has (p ∷ ps) x c =
      let o = from_pred g a exits b p in
      let (s', has') = add_state g a (s, has) o in
      merge_keeps exits b s' has' ps x (add_keeps s has o x c)

  merge_new :
      (exits : Exits State) (b p : ℕ) (s : State) (has : Bool) (ps : List (Option ℕ)) (t : State)
      (x : Store)
      → Memᴰ (some p) ps
      → from_pred g a exits b (some p) ≡ some t
      → In t x
      → Covers (merge_preds g a exits b (s, has) ps) x
  unfolding merge_preds
  merge_new exits b p s has [] t x m e i = elim m [ ]
  merge_new exits b p s has (q ∷ ps) t x m e i =
      let o = from_pred g a exits b q in
      let (s', has') = add_state g a (s, has) o in
      elim (Memᴰ.cases_cons m) [
        | inl same ↦
            merge_keeps exits b s' has' ps x
              (add_new s has o t x (ap (from_pred g a exits b) (sym same) ∙ e) i)
        | inr later ↦ merge_new exits b p s' has' ps t x later e i
      ]

  -- Whichever arm of a diamond delivered `x`, the state of the condition block covers it.
  rewind_at_sound :
      (f : Cond → Bool → State → State)
      → a.refine ≡ some f
      → (top arm1 arm2 p : ℕ) (c : Option (Cond × Bool)) (oe o1 o2 : Option State) (s t : State)
        (x : Store)
      → rewind_at g a f top arm1 arm2 c oe o1 o2 ≡ some t
      → ((o1 ≡ some s) ⊎ (o2 ≡ some s))
      → In s x
      → In t x
  unfolding rewind_at arms_pure
  rewind_at_sound f ef top arm1 arm2 p (some (c, flip)) (some exit) (some e1) (some e2) s t x h d
        i =
      ground (
        arith,
        sound.same_back e1 (f c (not flip) exit) x,
        sound.same_back e1 (f c flip exit) x,
        sound.same_back e2 (f c (not flip) exit) x,
        sound.same_back e2 (f c flip exit) x,
        sound.refine_below f ef c flip exit x,
        sound.refine_below f ef c (not flip) exit x,
      )
  rewind_at_sound f ef top arm1 arm2 p _ _ _ _ s t x h d i = cc

  rewind_arms_sound :
      (f : Cond → Bool → State → State)
      → a.refine ≡ some f
      → (exits : Exits State) (arm1 arm2 p : ℕ) (l1 l2 : List (Option ℕ)) (s t : State) (x : Store)
      → rewind_arms g a f exits arm1 arm2 l1 l2 ≡ some t
      → ((exits arm1 ≡ some s) ⊎ (exits arm2 ≡ some s))
      → In s x
      → In t x
  unfolding rewind_arms
  rewind_arms_sound f ef exits arm1 arm2 p (some g1 ∷ []) (some g2 ∷ []) s t x h d i =
      elim (Bool-cases (not (arm1 == arm2) && g1 == g2 && g.selects_value g1)) [
        | inl e ↦
            rewind_at_sound f ef g1 arm1 arm2 p (g.condition g1) (exits g1) (exits arm1)
              (exits arm2) s t x (rw e at h) d i
        | inr e ↦ cc (rw e at h)
      ]
  rewind_arms_sound f ef exits arm1 arm2 p _ _ s t x h d i = cc

  rewind_preds_sound :
      (f : Cond → Bool → State → State)
      → a.refine ≡ some f
      → (exits : Exits State) (p : ℕ) (ps : List (Option ℕ)) (s t : State) (x : Store)
      → rewind_preds g a f exits ps ≡ some t
      → Memᴰ (some p) ps
      → exits p ≡ some s
      → In s x
      → In t x
  unfolding rewind_preds
  rewind_preds_sound f ef exits p (some arm1 ∷ some arm2 ∷ []) s t x h m e i =
      rewind_arms_sound f ef exits arm1 arm2 p (g.preds arm1) (g.preds arm2) s t x h (arm m) i
    where
      arm :
          Memᴰ (some p) (some arm1 ∷ some arm2 ∷ []) → (exits arm1 ≡ some s) ⊎ (exits arm2 ≡ some s)
      arm (Memᴰ.head q) = inl (let r : arm1 ≡ p = cc in ap exits r ∙ e)
      arm (Memᴰ.tail (Memᴰ.head q)) = inr (let r : arm2 ≡ p = cc in ap exits r ∙ e)
      arm (Memᴰ.tail (Memᴰ.tail n)) = elim n [ ]
  rewind_preds_sound f ef exits p _ s t x h m e i = cc

  rewind_sound :
      (exits : Exits State) (b p : ℕ) (s t : State) (x : Store)
      → rewind g a exits b ≡ some t
      → Memᴰ (some p) (g.preds b)
      → exits p ≡ some s
      → In s x
      → In t x
  unfolding rewind
  rewind_sound exits b p s t x h m e i = elim (Option-cases a.refine) [
    | inl none_ ↦ cc (rw (none_, rewind) at h)
    | inr q ↦
        let (f, ef) = q in
        rewind_preds_sound f ef exits p (g.preds b) s t x (rw (ef, rewind) at h) m e i
  ]

  -- What an edge into `b` delivers is covered by the entry state of `b`, which has a predecessor.
  pub entry_state_sound :
      (exits : Exits State) (b p : ℕ) (s : State) (x : Store)
      → Memᴰ (some p) (g.preds b)
      → exits p ≡ some s
      → Passes g a k p b x
      → In s x
      → Covers (entry_state g a exits b) x
  unfolding entry_state
  entry_state_sound exits b p s x m e h i = elim (Option-cases (rewind g a exits b)) [
    | inl no_ ↦
        let (t, et, it) = from_pred_sound exits p b s x e h i in
        rw (no_, entry_state) (merge_new exits b p a.initial false (g.preds b) t x m et it)
    | inr q ↦ let (t, et) = q in rw (et, entry_state) (refl, rewind_sound exits b p s t x et m e i)
  ]
