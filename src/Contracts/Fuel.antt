-- ===== src/Contracts/Fuel.antt =====
-- contracts/ContractParser.cpp: the fuel of the parser is enough.
use code_skeptic.Prelude.{
  true, ℕ, zero, suc, ◌+◌, ◌*◌, ◌≤◌, Option, none, some, List, [], ◌∷◌, length, arith,
}
use code_skeptic.Contracts.{Operand, Pred, int_lit}
use code_skeptic.Contracts.Lexer.{
  Token, ident, int, l_paren, r_paren, and_and, or_or, bang, bad, raised, compares,
}
use code_skeptic.Contracts.Outcome.{
  Outcome, on_accepted, Yields, yields, refuses, throws, Yields-on_accepted, Yields-weaken,
}
use code_skeptic.Contracts.Parser.{
  advance, past, word_operand, operand_of, parse_operand, compare_rest, close, parse_atom,
  parse_unary, more_and, parse_and, more_or, parse_pred,
}

abbrev pub Within : {A : Type 0} → List Token → Outcome (A × List Token) → Type 0
Within ts = Yields true (λ r. length r.1 ≤ length ts)

abbrev pub Shorter : {A : Type 0} → List Token → Outcome (A × List Token) → Type 0
Shorter ts = Yields true (λ r. suc (length r.1) ≤ length ts)

pub advance-length : (ts : List Token) → Yields true (λ r. length r ≤ length ts) (advance ts)
unfolding advance
advance-length [] = yields (omega arith)
advance-length (raised ∷ ts) = throws
advance-length (ident w ∷ ts) = yields (omega arith)
advance-length (int v ∷ ts) = yields (omega arith)
advance-length (l_paren ∷ ts) = yields (omega arith)
advance-length (r_paren ∷ ts) = yields (omega arith)
advance-length (and_and ∷ ts) = yields (omega arith)
advance-length (or_or ∷ ts) = yields (omega arith)
advance-length (bang ∷ ts) = yields (omega arith)
advance-length (bad ∷ ts) = yields (omega arith)
advance-length (compares op ∷ ts) = yields (omega arith)

pub past-Within : {A : Type 0} (a : A) (ts : List Token) → Within ts (past a ts)
unfolding past
past-Within a ts = Yields-on_accepted (advance-length ts) (λ rest h. yields h)

word_operand-Within : (w : Option Operand) (ts : List Token) → Within ts (word_operand w ts)
unfolding word_operand
word_operand-Within none ts = refuses
word_operand-Within (some o) ts = past-Within o ts

longer :
    {A : Type 0} (ts : List Token) (t : Token) {r : Outcome (A × List Token)}
    → Within ts r
    → Shorter (t ∷ ts) r
longer ts t h = Yields-weaken (λ r k. omega arith) h

pub parse_operand-Shorter : (ts : List Token) → Shorter ts (parse_operand ts)
unfolding parse_operand
parse_operand-Shorter [] = refuses
parse_operand-Shorter (ident w ∷ ts) = longer ts (ident w) (word_operand-Within (operand_of w) ts)
parse_operand-Shorter (int v ∷ ts) = longer ts (int v) (past-Within (int_lit v) ts)
parse_operand-Shorter (l_paren ∷ ts) = refuses
parse_operand-Shorter (r_paren ∷ ts) = refuses
parse_operand-Shorter (and_and ∷ ts) = refuses
parse_operand-Shorter (or_or ∷ ts) = refuses
parse_operand-Shorter (bang ∷ ts) = refuses
parse_operand-Shorter (bad ∷ ts) = refuses
parse_operand-Shorter (raised ∷ ts) = refuses
parse_operand-Shorter (compares op ∷ ts) = refuses

pub compare_rest-Within : (o : Operand) (ts : List Token) → Within ts (compare_rest o ts)
unfolding compare_rest
compare_rest-Within o (compares op ∷ ts) =
    Yields-on_accepted (advance-length ts) (λ ts₁ h.
      Yields-on_accepted (parse_operand-Shorter ts₁) (λ (r, ts₂) h₂. yields (omega arith)))
compare_rest-Within o [] = yields (omega arith)
compare_rest-Within o (ident w ∷ ts) = yields (omega arith)
compare_rest-Within o (int v ∷ ts) = yields (omega arith)
compare_rest-Within o (l_paren ∷ ts) = yields (omega arith)
compare_rest-Within o (r_paren ∷ ts) = yields (omega arith)
compare_rest-Within o (and_and ∷ ts) = yields (omega arith)
compare_rest-Within o (or_or ∷ ts) = yields (omega arith)
compare_rest-Within o (bang ∷ ts) = yields (omega arith)
compare_rest-Within o (bad ∷ ts) = yields (omega arith)
compare_rest-Within o (raised ∷ ts) = yields (omega arith)

close-Shorter : (p : Pred) (ts : List Token) → Shorter ts (close p ts)
unfolding close
close-Shorter p (r_paren ∷ ts) = longer ts r_paren (past-Within p ts)
close-Shorter p [] = refuses
close-Shorter p (ident w ∷ ts) = refuses
close-Shorter p (int v ∷ ts) = refuses
close-Shorter p (l_paren ∷ ts) = refuses
close-Shorter p (and_and ∷ ts) = refuses
close-Shorter p (or_or ∷ ts) = refuses
close-Shorter p (bang ∷ ts) = refuses
close-Shorter p (bad ∷ ts) = refuses
close-Shorter p (raised ∷ ts) = refuses
close-Shorter p (compares op ∷ ts) = refuses

relation-Shorter :
    (ts : List Token) → Shorter ts (on_accepted (parse_operand ts) (λ (o, ts₁). compare_rest o ts₁))
relation-Shorter ts =
    Yields-on_accepted (parse_operand-Shorter ts)
      (λ (o, ts₁) h. Yields-weaken (λ r k. omega arith) (compare_rest-Within o ts₁))

-- The fuel that each function needs is four for each token and one to four for its own descent.
mutual
  unfolding parse_atom parse_unary more_and more_or parse_and parse_pred

  pub parse_atom-Shorter :
      (f : ℕ) (ts : List Token) → 4 * length ts + 1 ≤ f → Shorter ts (parse_atom f ts)
  parse_atom-Shorter zero ts h = absurd (omega arith)
  parse_atom-Shorter (suc f) (l_paren ∷ ts) h = Yields-on_accepted (advance-length ts) (λ ts₁ h₁.
      Yields-on_accepted (parse_pred-Shorter f ts₁ (omega arith))
        (λ (p, ts₂) h₂. Yields-weaken (λ r k. omega arith) (close-Shorter p ts₂)))
  parse_atom-Shorter (suc f) [] h = relation-Shorter []
  parse_atom-Shorter (suc f) (ident w ∷ ts) h = relation-Shorter (ident w ∷ ts)
  parse_atom-Shorter (suc f) (int v ∷ ts) h = relation-Shorter (int v ∷ ts)
  parse_atom-Shorter (suc f) (r_paren ∷ ts) h = relation-Shorter (r_paren ∷ ts)
  parse_atom-Shorter (suc f) (and_and ∷ ts) h = relation-Shorter (and_and ∷ ts)
  parse_atom-Shorter (suc f) (or_or ∷ ts) h = relation-Shorter (or_or ∷ ts)
  parse_atom-Shorter (suc f) (bang ∷ ts) h = relation-Shorter (bang ∷ ts)
  parse_atom-Shorter (suc f) (bad ∷ ts) h = relation-Shorter (bad ∷ ts)
  parse_atom-Shorter (suc f) (raised ∷ ts) h = relation-Shorter (raised ∷ ts)
  parse_atom-Shorter (suc f) (compares op ∷ ts) h = relation-Shorter (compares op ∷ ts)

  pub parse_unary-Shorter :
      (f : ℕ) (ts : List Token) → 4 * length ts + 2 ≤ f → Shorter ts (parse_unary f ts)
  parse_unary-Shorter zero ts h = absurd (omega arith)
  parse_unary-Shorter (suc f) (bang ∷ ts) h = Yields-on_accepted (advance-length ts) (λ ts₁ h₁.
      Yields-on_accepted (parse_unary-Shorter f ts₁ (omega arith))
        (λ (p, ts₂) h₂. yields (omega arith)))
  parse_unary-Shorter (suc f) [] h = parse_atom-Shorter f [] (omega arith)
  parse_unary-Shorter (suc f) (ident w ∷ ts) h = parse_atom-Shorter f (ident w ∷ ts) (omega arith)
  parse_unary-Shorter (suc f) (int v ∷ ts) h = parse_atom-Shorter f (int v ∷ ts) (omega arith)
  parse_unary-Shorter (suc f) (l_paren ∷ ts) h = parse_atom-Shorter f (l_paren ∷ ts) (omega arith)
  parse_unary-Shorter (suc f) (r_paren ∷ ts) h = parse_atom-Shorter f (r_paren ∷ ts) (omega arith)
  parse_unary-Shorter (suc f) (and_and ∷ ts) h = parse_atom-Shorter f (and_and ∷ ts) (omega arith)
  parse_unary-Shorter (suc f) (or_or ∷ ts) h = parse_atom-Shorter f (or_or ∷ ts) (omega arith)
  parse_unary-Shorter (suc f) (bad ∷ ts) h = parse_atom-Shorter f (bad ∷ ts) (omega arith)
  parse_unary-Shorter (suc f) (raised ∷ ts) h = parse_atom-Shorter f (raised ∷ ts) (omega arith)
  parse_unary-Shorter (suc f) (compares op ∷ ts) h =
      parse_atom-Shorter f (compares op ∷ ts) (omega arith)

  pub more_and-Within :
      (f : ℕ) (ts : List Token) → 4 * length ts + 1 ≤ f → Within ts (more_and f ts)
  more_and-Within zero ts h = absurd (omega arith)
  more_and-Within (suc f) (and_and ∷ ts) h = Yields-on_accepted (advance-length ts) (λ ts₁ h₁.
      Yields-on_accepted (parse_unary-Shorter f ts₁ (omega arith)) (λ (p, ts₂) h₂.
        Yields-on_accepted (more_and-Within f ts₂ (omega arith))
          (λ (ps, ts₃) h₃. yields (omega arith))))
  more_and-Within (suc f) [] h = yields (omega arith)
  more_and-Within (suc f) (ident w ∷ ts) h = yields (omega arith)
  more_and-Within (suc f) (int v ∷ ts) h = yields (omega arith)
  more_and-Within (suc f) (l_paren ∷ ts) h = yields (omega arith)
  more_and-Within (suc f) (r_paren ∷ ts) h = yields (omega arith)
  more_and-Within (suc f) (or_or ∷ ts) h = yields (omega arith)
  more_and-Within (suc f) (bang ∷ ts) h = yields (omega arith)
  more_and-Within (suc f) (bad ∷ ts) h = yields (omega arith)
  more_and-Within (suc f) (raised ∷ ts) h = yields (omega arith)
  more_and-Within (suc f) (compares op ∷ ts) h = yields (omega arith)

  pub more_or-Within : (f : ℕ) (ts : List Token) → 4 * length ts + 1 ≤ f → Within ts (more_or f ts)
  more_or-Within zero ts h = absurd (omega arith)
  more_or-Within (suc f) (or_or ∷ ts) h = Yields-on_accepted (advance-length ts) (λ ts₁ h₁.
      Yields-on_accepted (parse_and-Shorter f ts₁ (omega arith)) (λ (p, ts₂) h₂.
        Yields-on_accepted (more_or-Within f ts₂ (omega arith))
          (λ (ps, ts₃) h₃. yields (omega arith))))
  more_or-Within (suc f) [] h = yields (omega arith)
  more_or-Within (suc f) (ident w ∷ ts) h = yields (omega arith)
  more_or-Within (suc f) (int v ∷ ts) h = yields (omega arith)
  more_or-Within (suc f) (l_paren ∷ ts) h = yields (omega arith)
  more_or-Within (suc f) (r_paren ∷ ts) h = yields (omega arith)
  more_or-Within (suc f) (and_and ∷ ts) h = yields (omega arith)
  more_or-Within (suc f) (bang ∷ ts) h = yields (omega arith)
  more_or-Within (suc f) (bad ∷ ts) h = yields (omega arith)
  more_or-Within (suc f) (raised ∷ ts) h = yields (omega arith)
  more_or-Within (suc f) (compares op ∷ ts) h = yields (omega arith)

  pub parse_and-Shorter :
      (f : ℕ) (ts : List Token) → 4 * length ts + 3 ≤ f → Shorter ts (parse_and f ts)
  parse_and-Shorter zero ts h = absurd (omega arith)
  parse_and-Shorter (suc f) ts h =
      Yields-on_accepted (parse_unary-Shorter f ts (omega arith)) (λ (p, ts₁) h₁.
        Yields-on_accepted (more_and-Within f ts₁ (omega arith))
          (λ (ps, ts₂) h₂. yields (omega arith)))

  pub parse_pred-Shorter :
      (f : ℕ) (ts : List Token) → 4 * length ts + 4 ≤ f → Shorter ts (parse_pred f ts)
  parse_pred-Shorter zero ts h = absurd (omega arith)
  parse_pred-Shorter (suc f) ts h =
      Yields-on_accepted (parse_and-Shorter f ts (omega arith)) (λ (p, ts₁) h₁.
        Yields-on_accepted (more_or-Within f ts₁ (omega arith))
          (λ (ps, ts₂) h₂. yields (omega arith)))
