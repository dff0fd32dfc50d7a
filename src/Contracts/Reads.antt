-- ===== src/Contracts/Reads.antt =====
-- contracts/ContractParser.cpp: what each parsing function takes off the tokens.
use code_skeptic.Prelude.{
  ℕ, zero, suc, ◌+◌, ◌*◌, ◌≤◌, ◌≡◌, refl, Bool, true, false, List, [], ◌∷◌, length, arith,
}
use code_skeptic.Contracts.{Operand, Pred, Preds, truth, negation, no_more, more}
use code_skeptic.Contracts.Lexer.{
  Token, ident, int, l_paren, r_paren, and_and, or_or, bang, bad, raised, compares,
}
use code_skeptic.Contracts.Outcome.{accepted, Yields-value}
use code_skeptic.Contracts.Parser.{
  Parses, advance, past, compare_rest, close, all_of, any_of, parse_atom, parse_unary, more_and,
  parse_and, more_or, parse_pred,
}
use code_skeptic.Contracts.Fuel.{parse_unary-Shorter, parse_and-Shorter}

-- With enough fuel, the parsing function takes `a` off the tokens and leaves `rest`.
abbrev pub Reads :
    {A : Type 0} → (ℕ → List Token → Parses A) → ℕ → A → List Token → List Token → Type 0
Reads parse c a ts rest = (f : ℕ) → 4 * length ts + c ≤ f → parse f ts ≡ accepted (a, rest)

-- The next token is one at which every loop of the parser stops.
unfoldable pub stops : List Token → Bool
stops [] = true
stops (r_paren ∷ ts) = true
stops (ident w ∷ ts) = true
stops _ = false

abbrev pub Calm : List Token → Type 0
Calm ts = advance ts ≡ accepted ts

module _ (ts : List Token) {mid rest : List Token} {p : Pred} {ps : Preds} where
  pub parse_and-Reads :
      Reads parse_unary 2 p ts mid
      → Reads more_and 1 ps mid rest
      → Reads parse_and 3 (all_of p ps) ts rest
  unfolding parse_and
  parse_and-Reads h k zero e = absurd (omega arith)
  parse_and-Reads h k (suc f) e =
      let first = h f (omega arith) in
      let shorter = Yields-value (parse_unary-Shorter f ts (omega arith)) first in
      rw first (rw (k f (omega arith)) refl)

  pub parse_pred-Reads :
      Reads parse_and 3 p ts mid
      → Reads more_or 1 ps mid rest
      → Reads parse_pred 4 (any_of p ps) ts rest
  unfolding parse_pred
  parse_pred-Reads h k zero e = absurd (omega arith)
  parse_pred-Reads h k (suc f) e =
      let first = h f (omega arith) in
      let shorter = Yields-value (parse_and-Shorter f ts (omega arith)) first in
      rw first (rw (k f (omega arith)) refl)

  pub more_and-Reads :
      Calm ts
      → Reads parse_unary 2 p ts mid
      → Reads more_and 1 ps mid rest
      → Reads more_and 1 (more p ps) (and_and ∷ ts) rest
  unfolding more_and
  more_and-Reads c h k zero e = absurd (omega arith)
  more_and-Reads c h k (suc f) e =
      let next = h f (omega arith) in
      let shorter = Yields-value (parse_unary-Shorter f ts (omega arith)) next in
      rw c (rw next (rw (k f (omega arith)) refl))

  pub more_or-Reads :
      Calm ts
      → Reads parse_and 3 p ts mid
      → Reads more_or 1 ps mid rest
      → Reads more_or 1 (more p ps) (or_or ∷ ts) rest
  unfolding more_or
  more_or-Reads c h k zero e = absurd (omega arith)
  more_or-Reads c h k (suc f) e =
      let next = h f (omega arith) in
      let shorter = Yields-value (parse_and-Shorter f ts (omega arith)) next in
      rw c (rw next (rw (k f (omega arith)) refl))

module _ (ts : List Token) {rest : List Token} {p : Pred} where
  pub negation-Reads :
      Calm ts → Reads parse_unary 2 p ts rest → Reads parse_unary 2 (negation p) (bang ∷ ts) rest
  unfolding parse_unary
  negation-Reads c h zero e = absurd (omega arith)
  negation-Reads c h (suc f) e = rw c (rw (h f (omega arith)) refl)

  pub wrapped-Reads :
      Calm ts
      → Calm rest
      → Reads parse_pred 4 p ts (r_paren ∷ rest)
      → Reads parse_unary 2 p (l_paren ∷ ts) rest
  unfolding parse_unary parse_atom close past
  wrapped-Reads c d h zero e = absurd (omega arith)
  wrapped-Reads c d h (suc zero) e = absurd (omega arith)
  wrapped-Reads c d h (suc (suc f)) e = rw c (rw (h f (omega arith)) (rw d refl))

pub stops-Calm : (ts : List Token) → stops ts ≡ true → Calm ts
unfolding stops advance
stops-Calm [] h = refl
stops-Calm (ident w ∷ ts) h = refl
stops-Calm (int v ∷ ts) h = cc
stops-Calm (l_paren ∷ ts) h = cc
stops-Calm (r_paren ∷ ts) h = refl
stops-Calm (and_and ∷ ts) h = cc
stops-Calm (or_or ∷ ts) h = cc
stops-Calm (bang ∷ ts) h = cc
stops-Calm (bad ∷ ts) h = cc
stops-Calm (raised ∷ ts) h = cc
stops-Calm (compares op ∷ ts) h = cc

pub compare_rest-stops :
    (o : Operand) (ts : List Token) → stops ts ≡ true → compare_rest o ts ≡ accepted (truth o, ts)
unfolding stops compare_rest
compare_rest-stops o [] h = refl
compare_rest-stops o (ident w ∷ ts) h = refl
compare_rest-stops o (int v ∷ ts) h = cc
compare_rest-stops o (l_paren ∷ ts) h = cc
compare_rest-stops o (r_paren ∷ ts) h = refl
compare_rest-stops o (and_and ∷ ts) h = cc
compare_rest-stops o (or_or ∷ ts) h = cc
compare_rest-stops o (bang ∷ ts) h = cc
compare_rest-stops o (bad ∷ ts) h = cc
compare_rest-stops o (raised ∷ ts) h = cc
compare_rest-stops o (compares op ∷ ts) h = cc

pub more_and-stops :
    (f : ℕ) (ts : List Token)
    → stops ts ≡ true
    → 4 * length ts + 1 ≤ f
    → more_and f ts ≡ accepted (no_more, ts)
unfolding stops more_and
more_and-stops zero ts h e = absurd (omega arith)
more_and-stops (suc f) [] h e = refl
more_and-stops (suc f) (ident w ∷ ts) h e = refl
more_and-stops (suc f) (int v ∷ ts) h e = cc
more_and-stops (suc f) (l_paren ∷ ts) h e = cc
more_and-stops (suc f) (r_paren ∷ ts) h e = refl
more_and-stops (suc f) (and_and ∷ ts) h e = cc
more_and-stops (suc f) (or_or ∷ ts) h e = cc
more_and-stops (suc f) (bang ∷ ts) h e = cc
more_and-stops (suc f) (bad ∷ ts) h e = cc
more_and-stops (suc f) (raised ∷ ts) h e = cc
more_and-stops (suc f) (compares op ∷ ts) h e = cc

pub more_or-stops :
    (f : ℕ) (ts : List Token)
    → stops ts ≡ true
    → 4 * length ts + 1 ≤ f
    → more_or f ts ≡ accepted (no_more, ts)
unfolding stops more_or
more_or-stops zero ts h e = absurd (omega arith)
more_or-stops (suc f) [] h e = refl
more_or-stops (suc f) (ident w ∷ ts) h e = refl
more_or-stops (suc f) (int v ∷ ts) h e = cc
more_or-stops (suc f) (l_paren ∷ ts) h e = cc
more_or-stops (suc f) (r_paren ∷ ts) h e = refl
more_or-stops (suc f) (and_and ∷ ts) h e = cc
more_or-stops (suc f) (or_or ∷ ts) h e = cc
more_or-stops (suc f) (bang ∷ ts) h e = cc
more_or-stops (suc f) (bad ∷ ts) h e = cc
more_or-stops (suc f) (raised ∷ ts) h e = cc
more_or-stops (suc f) (compares op ∷ ts) h e = cc
