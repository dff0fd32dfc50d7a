-- ===== src/PathFacts/Stores.antt =====
-- engine/PathFacts.h: what facts say of the values of variables and members.
use code_skeptic.Prelude.{
  ℕ, ◌≡◌, ◌∙◌, Bool, false, Option, none, some, [], ◌∷◌, bool_eq, All, Bool-cases, inl, inr,
}
use code_skeptic.Prelude.Int.{ℤ}
use code_skeptic.Condition.Meaning.{Env}
use code_skeptic.PathFacts.{
  FactKey, Claim, Facts, compare_literals, record_fact, erase_facts, key_eq, key_less,
}

-- The values of variables (and of functions that return a constant), and of members of variables.
pub record Store : Type 0 where
  pub env : Env
  pub member : ℕ → ℕ → ℤ

abbrev pub place_value : Store → ℕ → Option ℕ → ℤ
place_value s v none = s.env.var v
place_value s v (some f) = s.member v f

abbrev pub key_holds : Store → FactKey → Bool
key_holds s k = compare_literals k.rel (place_value s k.var k.field) k.literal

-- What a claim says of the condition that it is read from.
abbrev pub claim_value : Store → Claim → Bool
claim_value s c = bool_eq (key_holds s c.0) c.1

abbrev pub FactsHold : Store → Facts → Type 0
FactsHold s fs = All (λ (f : FactKey × Bool). key_holds s f.0 ≡ f.1) fs

pub record_fact-FactsHold :
    (s : Store) (k : FactKey) (v : Bool) (fs : Facts)
    → key_holds s k ≡ v
    → FactsHold s fs
    → FactsHold s (record_fact k v fs)
unfolding record_fact
record_fact-FactsHold s k v [] h hs = (h, tt)
record_fact-FactsHold s k v (f ∷ fs) h hs = elim (Bool-cases (key_eq f.0 k)) [
  | inl same ↦ rw same (h, hs.1)
  | inr other ↦ elim (Bool-cases (key_less k f.0)) [
    | inl before ↦ rw (other, before) (h, hs)
    | inr after ↦ rw (other, after) (hs.0, record_fact-FactsHold s k v fs h hs.1)
  ]
]

-- Facts that are not erased still hold in a store that agrees on their keys.
pub erase_facts-FactsHold :
    (s t : Store) (stale : FactKey → Bool) (fs : Facts)
    → ((k : FactKey) → stale k ≡ false → key_holds t k ≡ key_holds s k)
    → FactsHold s fs
    → FactsHold t (erase_facts stale fs)
unfolding erase_facts
erase_facts-FactsHold s t stale [] agree h = tt
erase_facts-FactsHold s t stale (f ∷ fs) agree h =
    let rest = erase_facts-FactsHold s t stale fs agree h.1 in
    elim (Bool-cases (stale f.0)) [
      | inl dead ↦ rw dead rest
      | inr kept ↦ rw kept (agree f.0 kept ∙ h.0, rest)
    ]
