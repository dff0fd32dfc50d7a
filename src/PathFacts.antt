-- ===== src/PathFacts.antt =====
-- engine/PathFacts.h, PathFacts.cpp: the canonical keys of conditions, and contradictions of facts.
pub mod Conditions
pub mod Stores
pub mod Contradiction
pub mod Normal
pub mod Keying
pub mod Comparison
pub mod Facts
use code_skeptic.Prelude.{
  ℕ, suc, Bool, true, false, not, ◌&&◌, ◌||◌, Option, none, some, List, [], ◌∷◌, ◌==◌, ltb,
  if◌then◌else◌, bool_eq, opt_eq,
}
use code_skeptic.Prelude.Int.{ℤ, pos, eqb_ℤ, ltb_ℤ, leb_ℤ}
use code_skeptic.Condition.{BinOp, lt, gt, le, ge, eq, ne, mirror}

-- The operators of a canonical key: BO_EQ, BO_LT and BO_LE.
pub data Rel : Type 0 where
  equals below at_most : Rel

-- "var REL literal", or "var.field REL literal". A declaration is its number.
pub record FactKey : Type 0 where
  pub var : ℕ
  pub rel : Rel
  pub literal : ℤ
  pub field : Option ℕ

-- The order of the operators in Clang's enumeration.
abbrev pub rel_code : Rel → ℕ
rel_code below = 0
rel_code at_most = 2
rel_code equals = 4

abbrev pub field_code : Option ℕ → ℕ
field_code none = 0
field_code (some f) = suc f

-- `FactKey::operator==`.
unfoldable pub key_eq : FactKey → FactKey → Bool
key_eq k o =
    k.var == o.var
    && (rel_code k.rel == rel_code o.rel && (eqb_ℤ k.literal o.literal && opt_eq k.field o.field))

-- `FactKey::operator<`, as `std::tie` compares.
unfoldable pub key_less : FactKey → FactKey → Bool
key_less k o =
    ltb k.var o.var
    || (k.var == o.var
        && (ltb (rel_code k.rel) (rel_code o.rel)
            || (rel_code k.rel == rel_code o.rel
                && (ltb_ℤ k.literal o.literal
                    || (eqb_ℤ k.literal o.literal
                        && ltb (field_code k.field) (field_code o.field))))))

abbrev pub var_key : ℕ → Rel → ℤ → FactKey
var_key v r c = record { var = v; rel = r; literal = c; field = none }

-- A key with the value that it has when the condition is true.
abbrev pub Claim : Type 0
Claim = FactKey × Bool

unfoldable pub canonical : BinOp → ℕ → ℤ → Option Claim
canonical eq v c = some (var_key v equals c, true)
canonical ne v c = some (var_key v equals c, false)
canonical lt v c = some (var_key v below c, true)
canonical ge v c = some (var_key v below c, false)
canonical le v c = some (var_key v at_most c, true)
canonical gt v c = some (var_key v at_most c, false)
canonical op v c = none

-- The identities of an unsigned value against zero; `none` for what carries no information.
unfoldable pub zero_identity : Bool → BinOp → Option BinOp
zero_identity false op = some op
zero_identity true le = some eq
zero_identity true gt = some ne
zero_identity true lt = none
zero_identity true ge = none
zero_identity true op = some op

unfoldable pub canonical_of : Option BinOp → ℕ → ℤ → Option Claim
canonical_of none v c = none
canonical_of (some op) v c = canonical op v c

-- `normalizeCompare`; `unsigned` is whether the variable's type is.
unfoldable pub normalize_compare : Bool → ℕ → BinOp → ℤ → Bool → Option Claim
normalize_compare unsigned v op c var_on_left =
    canonical_of
      (zero_identity (unsigned && eqb_ℤ c (pos 0)) (if var_on_left then op else mirror op)) v c

-- `compareFact`, for a variable that is there.
unfoldable pub compare_fact : Bool → ℕ → BinOp → ℤ → Option Claim
compare_fact unsigned v op c = normalize_compare unsigned v op c true

abbrev pub Facts : Type 0
Facts = List (FactKey × Bool)

unfoldable pub find_fact : Facts → FactKey → Option Bool
find_fact [] k = none
find_fact (f ∷ fs) k = let later = find_fact fs k in if key_eq f.0 k then some f.1 else later

unfoldable pub compare_literals : Rel → ℤ → ℤ → Bool
compare_literals equals a b = eqb_ℤ a b
compare_literals below a b = ltb_ℤ a b
compare_literals at_most a b = leb_ℤ a b

abbrev pub is_equals : Rel → Bool
is_equals equals = true
is_equals _ = false

-- Whether a known fact answers the key, and with the other value.
unfoldable pub answers_otherwise : FactKey × Bool → FactKey → Bool → Bool
answers_otherwise f k wanted =
    f.0.var == k.var
    && (opt_eq f.0.field k.field
        && (is_equals f.0.rel
            && (f.1 && not (bool_eq (compare_literals k.rel f.0.literal k.literal) wanted))))

unfoldable pub any_answers_otherwise : Facts → FactKey → Bool → Bool
any_answers_otherwise [] k wanted = false
any_answers_otherwise (f ∷ fs) k wanted =
    answers_otherwise f k wanted || any_answers_otherwise fs k wanted

-- `factsContradict`.
unfoldable pub facts_contradict : Facts → FactKey → Bool → Bool
facts_contradict fs k wanted = elim (find_fact fs k) [
  | some v ↦ not (bool_eq v wanted)
  | none ↦ any_answers_otherwise fs k wanted
]

-- `facts[key] = value` and `facts.erase`, on a map that is sorted by `key_less`.
unfoldable pub record_fact : FactKey → Bool → Facts → Facts
record_fact k v [] = (k, v) ∷ []
record_fact k v (f ∷ fs) =
    let later = record_fact k v fs in
    if key_eq f.0 k then (k, v) ∷ fs else if key_less k f.0 then (k, v) ∷ f ∷ fs else f ∷ later

unfoldable pub erase_facts : (FactKey → Bool) → Facts → Facts
erase_facts stale [] = []
erase_facts stale (f ∷ fs) = let rest = erase_facts stale fs in if stale f.0 then rest else f ∷ rest
