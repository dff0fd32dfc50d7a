-- ===== src/Contracts/Outcome.antt =====
-- contracts/ContractParser.cpp: how a parsing function ends, and what its value satisfies.
use code_skeptic.Prelude.{◌≡◌, ◌≢◌, subst, Bool, true, false}

-- `std::nullopt` is `refused`, an exception of `std::stoll` is `raised`; C++ has no `unfinished`.
pub data Outcome (A : Type 0) : Type 0 where
  raised refused unfinished : Outcome A
  accepted : A → Outcome A

abbrev pub on_accepted : {A B : Type 0} → Outcome A → (A → Outcome B) → Outcome B
on_accepted raised next = raised
on_accepted refused next = refused
on_accepted unfinished next = unfinished
on_accepted (accepted a) next = next a

-- `P` holds of the value, if there is one, and a total function finishes.
pub data Yields {A : Type 0} (total : Bool) (P : A → Type 0) : Outcome A → Type 0 where
  throws : Yields total P raised
  refuses : Yields total P refused
  runs_out : total ≡ false → Yields total P unfinished
  yields : {a : A} → P a → Yields total P (accepted a)

pub Yields-finished :
    {A : Type 0} {P : A → Type 0} {r : Outcome A} → Yields true P r → r ≢ unfinished
Yields-finished throws = cc
Yields-finished refuses = cc
Yields-finished (runs_out e) = cc
Yields-finished (yields p) = cc

module _ {A : Type 0} {total : Bool} {P : A → Type 0} where
  pub Yields-value : {r : Outcome A} {a : A} → Yields total P r → r ≡ accepted a → P a
  Yields-value throws e = cc
  Yields-value refuses e = cc
  Yields-value (runs_out f) e = cc
  Yields-value (yields p) e = subst P (cc) p

  -- The value goes on to a function that asks for `P`.
  pub Yields-on_accepted :
      {B : Type 0} {Q : B → Type 0} {r : Outcome A} {next : A → Outcome B}
      → Yields total P r
      → ((a : A) → P a → Yields total Q (next a))
      → Yields total Q (on_accepted r next)
  Yields-on_accepted throws k = throws
  Yields-on_accepted refuses k = refuses
  Yields-on_accepted (runs_out f) k = runs_out f
  Yields-on_accepted (yields {a} p) k = k a p

  pub Yields-weaken :
      {Q : A → Type 0} {r : Outcome A} → ((a : A) → P a → Q a) → Yields total P r → Yields total Q r
  Yields-weaken k throws = throws
  Yields-weaken k refuses = refuses
  Yields-weaken k (runs_out f) = runs_out f
  Yields-weaken k (yields {a} p) = yields (k a p)
