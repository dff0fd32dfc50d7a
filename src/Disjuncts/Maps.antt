-- ===== src/Disjuncts/Maps.antt =====
-- engine/GuardedDisjuncts.h: `mergeVarMaps` bounds both maps.
use code_skeptic.Prelude.{
  ℕ, ◌≡◌, refl, subst, true, Option, none, some, Option-cases, [], ◌∷◌, ◌==◌, if◌then◌else◌,
  Bool-cases, inl, inr, arith, ==_eq,
}
use code_skeptic.PathFacts.Stores.{Store}
use code_skeptic.Disjuncts.{
  VarMap, find_var, insert_entry, replace_entry, put_merged, merge_var_maps,
}
use code_skeptic.Disjuncts.Covers.{BelowEntry, VarsBelow}

itself : (x : ℕ) → (x == x) ≡ true
itself x = ground arith

module _ {Val : Type 0} where
  find_var-insert_entry :
      (m : VarMap Val) (x y : ℕ) (v : Val)
      → find_var m x ≡ none
      → find_var (insert_entry x v m) y ≡ (if x == y then some v else find_var m y)
  unfolding find_var insert_entry
  find_var-insert_entry [] x y v h = refl
  find_var-insert_entry (e ∷ es) x y v h = ground (arith, find_var-insert_entry es x y v)

  find_var-replace_entry :
      (m : VarMap Val) (x y : ℕ) (u v : Val)
      → find_var m x ≡ some u
      → find_var (replace_entry x v m) y ≡ (if x == y then some v else find_var m y)
  unfolding find_var replace_entry
  find_var-replace_entry [] x y u v h = cc
  find_var-replace_entry (e ∷ es) x y u v h = ground (arith, find_var-replace_entry es x y u v)

  find_var-put_none :
      (combine : Val → Val → Val) (m : VarMap Val) (x y : ℕ) (v : Val)
      → find_var m x ≡ none
      → find_var (put_merged combine x v m) y ≡ (if x == y then some v else find_var m y)
  unfolding put_merged
  find_var-put_none combine m x y v h = rw (h, put_merged) (find_var-insert_entry m x y v h)

  find_var-put_some :
      (combine : Val → Val → Val) (m : VarMap Val) (x y : ℕ) (u v : Val)
      → find_var m x ≡ some u
      → find_var (put_merged combine x v m) y
        ≡ (if x == y then some (combine u v) else find_var m y)
  unfolding put_merged
  find_var-put_some combine m x y u v h =
      rw (h, put_merged) (find_var-replace_entry m x y u (combine u v) h)

  module _ (Le : Store → Val → Val → Type 0) (s : Store) (combine : Val → Val → Val)
      (trans : (a b c : Val) → Le s a b → Le s b c → Le s a c)
      (left : (a b : Val) → Le s a (combine a b)) (right : (a b : Val) → Le s b (combine a b)) where
    put_merged-old :
        (m : VarMap Val) (x y : ℕ) (v a : Val)
        → BelowEntry Le s a (find_var m y)
        → BelowEntry Le s a (find_var (put_merged combine x v m) y)
    put_merged-old m x y v a h = elim (Option-cases (find_var m x)) [
      | inl fresh ↦ rw (find_var-put_none combine m x y v fresh) (elim (Bool-cases (x == y)) [
        | inl here ↦
            let gone : find_var m y ≡ none =
              subst (λ z. find_var m z ≡ none) (==_eq x y here) fresh in
            absurd (rw gone at h)
        | inr there ↦ rw there h
      ])
      | inr found ↦
          let (u, e) = found in
          rw (find_var-put_some combine m x y u v e) (elim (Bool-cases (x == y)) [
            | inl here ↦
                let old : find_var m y ≡ some u =
                  subst (λ z. find_var m z ≡ some u) (==_eq x y here) e in
                let below : Le s a u = rw old at h in
                rw here (trans a u (combine u v) below (left u v))
            | inr there ↦ rw there h
          ])
    ]

    put_merged-new :
        (m : VarMap Val) (x : ℕ) (v a : Val)
        → Le s a v
        → BelowEntry Le s a (find_var (put_merged combine x v m) x)
    put_merged-new m x v a h = elim (Option-cases (find_var m x)) [
      | inl fresh ↦ rw (find_var-put_none combine m x x v fresh, itself x) h
      | inr found ↦
          let (u, e) = found in
          rw (find_var-put_some combine m x x u v e, itself x)
            (trans a v (combine u v) h (right u v))
    ]

    merge_var_maps-left :
        (into from : VarMap Val) (y : ℕ) (a : Val)
        → BelowEntry Le s a (find_var into y)
        → BelowEntry Le s a (find_var (merge_var_maps combine into from) y)
    unfolding merge_var_maps
    merge_var_maps-left into [] y a h = h
    merge_var_maps-left into (e ∷ es) y a h =
        merge_var_maps-left (put_merged combine e.0 e.1 into) es y a
          (put_merged-old into e.0 y e.1 a h)

    merge_var_maps-right :
        (into from : VarMap Val) (y : ℕ) (a : Val)
        → BelowEntry Le s a (find_var from y)
        → BelowEntry Le s a (find_var (merge_var_maps combine into from) y)
    unfolding merge_var_maps find_var
    merge_var_maps-right into [] y a h = absurd h
    merge_var_maps-right into (e ∷ es) y a h = elim (Bool-cases (e.0 == y)) [
      | inl here ↦
          let le : Le s a e.1 = rw here at h in
          merge_var_maps-left (put_merged combine e.0 e.1 into) es y a (
            subst (λ z. BelowEntry Le s a (find_var (put_merged combine e.0 e.1 into) z))
              (==_eq e.0 y here) (put_merged-new into e.0 e.1 a le))
      | inr there ↦ merge_var_maps-right (put_merged combine e.0 e.1 into) es y a (rw there at h)
    ]

    pub merge-VarsBelow_left :
        (values : ℕ → Option Val) (into from : VarMap Val)
        → VarsBelow Le s values into
        → VarsBelow Le s values (merge_var_maps combine into from)
    merge-VarsBelow_left values into from h x v q = merge_var_maps-left into from x v (h x v q)

    pub merge-VarsBelow_right :
        (values : ℕ → Option Val) (into from : VarMap Val)
        → VarsBelow Le s values from
        → VarsBelow Le s values (merge_var_maps combine into from)
    merge-VarsBelow_right values into from h x v q = merge_var_maps-right into from x v (h x v q)
