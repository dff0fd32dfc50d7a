-- ===== src/Contracts/Printer.antt =====
-- contracts/ContractParser.cpp: predicates written as tokens, the children of a connective in parentheses.
use code_skeptic.Prelude.{◌≡◌, Bool, false, ◌||◌, Option, none, some, List, [], ◌∷◌}
use code_skeptic.Prelude.Text.{Text, codes, text_eq}
use code_skeptic.Contracts.{
  Operand, Pred, Preds, return_value, null, param, int_lit, cmp, truth, negation, conjunction,
  disjunction, no_more, more,
}
use code_skeptic.Contracts.Lexer.{
  Token, ident, int, l_paren, r_paren, and_and, or_or, bang, compares,
}

unfoldable pub emit_operand : Operand → Token
emit_operand return_value = ident (codes "return")
emit_operand null = ident (codes "null")
emit_operand (param n) = ident n
emit_operand (int_lit v) = int v

-- The tokens of a predicate, before the others.
unfoldable mutual
  pub emit : Pred → List Token → List Token
  emit (cmp a op b) rest = emit_operand a ∷ compares op ∷ emit_operand b ∷ rest
  emit (truth a) rest = emit_operand a ∷ rest
  emit (negation p) rest = bang ∷ l_paren ∷ emit p (r_paren ∷ rest)
  emit (conjunction p q qs) rest =
      l_paren ∷ emit p (r_paren ∷ and_and ∷ l_paren ∷ emit q (r_paren ∷ emit_all and_and qs rest))
  emit (disjunction p q qs) rest =
      l_paren ∷ emit p (r_paren ∷ or_or ∷ l_paren ∷ emit q (r_paren ∷ emit_all or_or qs rest))

  pub emit_all : Token → Preds → List Token → List Token
  emit_all t no_more rest = rest
  emit_all t (more p ps) rest = t ∷ l_paren ∷ emit p (r_paren ∷ emit_all t ps rest)

-- A predicate in parentheses.
abbrev pub wrapped : Pred → List Token → List Token
wrapped p rest = l_paren ∷ emit p (r_paren ∷ rest)

unfoldable pub is_keyword : Text → Bool
is_keyword n = text_eq n (codes "return") || (text_eq n (codes "null") || text_eq n (codes "if"))

-- No parameter of the predicate has a keyword for its name.
abbrev pub NamedOperand : Operand → Type 0
NamedOperand return_value = Unit
NamedOperand null = Unit
NamedOperand (param n) = is_keyword n ≡ false
NamedOperand (int_lit v) = Unit

abbrev mutual
  pub Named : Pred → Type 0
  Named (cmp a op b) = NamedOperand a × NamedOperand b
  Named (truth a) = NamedOperand a
  Named (negation p) = Named p
  Named (conjunction p q qs) = Named p × (Named q × AllNamed qs)
  Named (disjunction p q qs) = Named p × (Named q × AllNamed qs)

  pub AllNamed : Preds → Type 0
  AllNamed no_more = Unit
  AllNamed (more p ps) = Named p × AllNamed ps

abbrev pub NamedGuard : Option Pred → Type 0
NamedGuard none = Unit
NamedGuard (some g) = Named g

-- The tokens of the two clauses that have predicates.
unfoldable pub requires_tokens : Pred → List Token
requires_tokens p = ident (codes "requires") ∷ emit p []

unfoldable pub guard_tokens : Option Pred → List Token
guard_tokens none = []
guard_tokens (some g) = ident (codes "if") ∷ emit g []

unfoldable pub ensures_tokens : Pred → Option Pred → List Token
ensures_tokens p g = ident (codes "ensures") ∷ emit p (guard_tokens g)
