-- ===== src/Contracts/Grammar.antt =====
-- docs/CONTRACTS.md, section 3: the grammar of clauses, as derivations of token lists.
use code_skeptic.Prelude.{◌≡◌, ◌⊎◌, none, some, List, [], ◌∷◌, if◌then◌else◌}
use code_skeptic.Prelude.Text.{Text, codes}
use code_skeptic.Contracts.{
  Operand, CmpOp, Pred, Preds, Clause, cmp, truth, negation, no_more, more, requires, ensures, owns,
  borrows, returns_owned, policy,
}
use code_skeptic.Contracts.Lexer.{Token, ident, l_paren, r_paren, and_and, or_or, bang, compares}
use code_skeptic.Contracts.Parser.{all_of, any_of, is_prefix}
use code_skeptic.Contracts.Printer.{emit_operand, NamedOperand}

-- `OrExpr p ts rest`: the tokens of `ts` before `rest` derive `p`. So with the others.
mutual
  pub data Atom : Pred → List Token → List Token → Type 0 where
    parens :
        {p : Pred} {ts rest : List Token}
        → OrExpr p ts (r_paren ∷ rest)
        → Atom p (l_paren ∷ ts) rest
    comparison :
        {a b : Operand} {op : CmpOp} {rest : List Token}
        → NamedOperand a
        → NamedOperand b
        → Atom (cmp a op b) (emit_operand a ∷ compares op ∷ emit_operand b ∷ rest) rest
    operand :
        {a : Operand} {rest : List Token}
        → NamedOperand a
        → Atom (truth a) (emit_operand a ∷ rest) rest

  pub data Unary : Pred → List Token → List Token → Type 0 where
    not_unary :
        {p : Pred} {ts rest : List Token} → Unary p ts rest → Unary (negation p) (bang ∷ ts) rest
    atom : {p : Pred} {ts rest : List Token} → Atom p ts rest → Unary p ts rest

  pub data AndTail : Preds → List Token → List Token → Type 0 where
    and_done : {rest : List Token} → AndTail no_more rest rest
    and_more :
        {p : Pred} {ps : Preds} {ts mid rest : List Token}
        → Unary p ts mid
        → AndTail ps mid rest
        → AndTail (more p ps) (and_and ∷ ts) rest

  pub data AndExpr : Pred → List Token → List Token → Type 0 where
    and_expr :
        {p : Pred} {ps : Preds} {ts mid rest : List Token}
        → Unary p ts mid
        → AndTail ps mid rest
        → AndExpr (all_of p ps) ts rest

  pub data OrTail : Preds → List Token → List Token → Type 0 where
    or_done : {rest : List Token} → OrTail no_more rest rest
    or_more :
        {p : Pred} {ps : Preds} {ts mid rest : List Token}
        → AndExpr p ts mid
        → OrTail ps mid rest
        → OrTail (more p ps) (or_or ∷ ts) rest

  pub data OrExpr : Pred → List Token → List Token → Type 0 where
    or_expr :
        {p : Pred} {ps : Preds} {ts mid rest : List Token}
        → AndExpr p ts mid
        → OrTail ps mid rest
        → OrExpr (any_of p ps) ts rest

-- The two words before an owner, and the clause that the text of the body then decides.
abbrev pub OwnerWord : Text → Type 0
OwnerWord w = (w ≡ codes "owns") ⊎ (w ≡ codes "borrows")

abbrev pub owner_clause : Text → Text → Clause
owner_clause body n = (if is_prefix (codes "owns") body then owns else borrows) n

-- The tokens of a body that derive a clause. What a policy's name may be is not a matter of tokens.
pub data ClauseRule (body : Text) : Clause → List Token → Type 0 where
  requires_rule :
      {p : Pred} {ts : List Token}
      → OrExpr p ts []
      → ClauseRule body (requires p) (ident (codes "requires") ∷ ts)
  ensures_rule :
      {p : Pred} {ts : List Token}
      → OrExpr p ts []
      → ClauseRule body (ensures p none) (ident (codes "ensures") ∷ ts)
  ensures_if_rule :
      {p g : Pred} {ts gs : List Token}
      → OrExpr p ts (ident (codes "if") ∷ gs)
      → OrExpr g gs []
      → ClauseRule body (ensures p (some g)) (ident (codes "ensures") ∷ ts)
  owner_rule :
      {w n : Text}
      → OwnerWord w
      → ClauseRule body (owner_clause body n) (ident w ∷ l_paren ∷ ident n ∷ r_paren ∷ [])
  returns_rule :
      ClauseRule body returns_owned (ident (codes "returns") ∷ ident (codes "owned") ∷ [])
  policy_rule :
      {n w : Text} {ts : List Token}
      → ClauseRule body (policy n) (ident (codes "policy") ∷ ident w ∷ ts)
