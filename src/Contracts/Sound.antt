-- ===== src/Contracts/Sound.antt =====
-- contracts/ContractParser.cpp: what the parser accepts derives from the grammar.
use code_skeptic.Prelude.{
  ℕ, zero, suc, ◌≡◌, refl, sym, subst, ap, false, List, [], ◌∷◌, arith, Bool-cases, inl, inr,
}
use code_skeptic.Prelude.Text.{Text, codes, text_eq, text_eq-path}
use code_skeptic.Contracts.{Operand, Pred, return_value, null, param, int_lit, cmp}
use code_skeptic.Contracts.Lexer.{
  Token, ident, int, l_paren, r_paren, and_and, or_or, bang, bad, raised, compares,
}
use code_skeptic.Contracts.Outcome.{
  Outcome, on_accepted, Yields, yields, refuses, throws, runs_out, Yields-weaken,
  Yields-on_accepted,
}
use code_skeptic.Contracts.Parser.{
  advance, past, word_operand, operand_of, parse_operand, compare_rest, close, parse_atom,
  parse_unary, more_and, parse_and, more_or, parse_pred,
}
use code_skeptic.Contracts.Printer.{emit_operand, is_keyword, NamedOperand}
use code_skeptic.Contracts.Grammar.{
  Atom, parens, comparison, operand, Unary, not_unary, atom, AndTail, and_done, and_more, AndExpr,
  and_expr, OrTail, or_done, or_more, OrExpr, or_expr,
}

-- Where the next token is read, the tokens stay.
pub advance-Yields :
    {B : Type 0} {Q : B → Type 0} (f : List Token → Outcome B) (ts : List Token)
    → Yields false Q (f ts)
    → Yields false Q (on_accepted (advance ts) f)
unfolding advance
advance-Yields f (raised ∷ ts) h = throws
advance-Yields f [] h = h
advance-Yields f (ident w ∷ ts) h = h
advance-Yields f (int v ∷ ts) h = h
advance-Yields f (l_paren ∷ ts) h = h
advance-Yields f (r_paren ∷ ts) h = h
advance-Yields f (and_and ∷ ts) h = h
advance-Yields f (or_or ∷ ts) h = h
advance-Yields f (bang ∷ ts) h = h
advance-Yields f (bad ∷ ts) h = h
advance-Yields f (compares op ∷ ts) h = h

-- The operand is that of the token at the head.
abbrev ReadOperand : List Token → Operand × List Token → Type 0
ReadOperand ts r = NamedOperand r.0 × (ts ≡ emit_operand r.0 ∷ r.1)

past-Yields :
    {A : Type 0} {Q : A × List Token → Type 0} (a : A) (ts : List Token)
    → Q (a, ts)
    → Yields false Q (past a ts)
unfolding past
past-Yields a ts h = advance-Yields _ ts (yields h)

word_operand-Yields :
    (w : Text) (ts : List Token)
    → Yields false (ReadOperand (ident w ∷ ts)) (word_operand (operand_of w) ts)
unfolding operand_of word_operand emit_operand is_keyword
word_operand-Yields w ts = elim (Bool-cases (text_eq w (codes "return"))) [
  | inl returns ↦
      rw (returns)
        (past-Yields return_value ts (tt, ap (λ v. ident v ∷ ts) (text_eq-path w _ returns)))
  | inr other ↦ elim (Bool-cases (text_eq w (codes "null"))) [
    | inl nulls ↦
        rw other
          (rw nulls (past-Yields null ts (tt, ap (λ v. ident v ∷ ts) (text_eq-path w _ nulls))))
    | inr other₂ ↦ elim (Bool-cases (text_eq w (codes "if"))) [
      | inl ifs ↦ rw other (rw other₂ (rw ifs refuses))
      | inr other₃ ↦
          let named : is_keyword w ≡ false = ground arith in
          rw other (rw other₂ (rw other₃ (past-Yields (param w) ts (named, refl))))
    ]
  ]
]

parse_operand-Yields : (ts : List Token) → Yields false (ReadOperand ts) (parse_operand ts)
unfolding parse_operand emit_operand
parse_operand-Yields (int v ∷ ts) = past-Yields (int_lit v) ts (tt, refl)
parse_operand-Yields (ident w ∷ ts) = word_operand-Yields w ts
parse_operand-Yields [] = refuses
parse_operand-Yields (l_paren ∷ ts) = refuses
parse_operand-Yields (r_paren ∷ ts) = refuses
parse_operand-Yields (and_and ∷ ts) = refuses
parse_operand-Yields (or_or ∷ ts) = refuses
parse_operand-Yields (bang ∷ ts) = refuses
parse_operand-Yields (bad ∷ ts) = refuses
parse_operand-Yields (raised ∷ ts) = refuses
parse_operand-Yields (compares op ∷ ts) = refuses

compare_rest-Yields :
    (o : Operand) (ts : List Token)
    → NamedOperand o
    → Yields false (λ r. Atom r.0 (emit_operand o ∷ ts) r.1) (compare_rest o ts)
unfolding compare_rest
compare_rest-Yields o (compares op ∷ ts) n = advance-Yields _ ts (
    Yields-on_accepted (parse_operand-Yields ts) (λ (b, ts₂) (k, e). yields (
      subst (λ u. Atom (cmp o op b) (emit_operand o ∷ compares op ∷ u) ts₂) (sym e)
        (comparison n k))))
compare_rest-Yields o [] n = yields (operand n)
compare_rest-Yields o (ident w ∷ ts) n = yields (operand n)
compare_rest-Yields o (int v ∷ ts) n = yields (operand n)
compare_rest-Yields o (l_paren ∷ ts) n = yields (operand n)
compare_rest-Yields o (r_paren ∷ ts) n = yields (operand n)
compare_rest-Yields o (and_and ∷ ts) n = yields (operand n)
compare_rest-Yields o (or_or ∷ ts) n = yields (operand n)
compare_rest-Yields o (bang ∷ ts) n = yields (operand n)
compare_rest-Yields o (bad ∷ ts) n = yields (operand n)
compare_rest-Yields o (raised ∷ ts) n = yields (operand n)

close-Yields :
    (p : Pred) (ts ts₂ : List Token)
    → OrExpr p ts ts₂
    → Yields false (λ r. Atom r.0 (l_paren ∷ ts) r.1) (close p ts₂)
unfolding close
close-Yields p ts (r_paren ∷ ts₂) h = past-Yields p ts₂ (parens h)
close-Yields p ts [] h = refuses
close-Yields p ts (ident w ∷ ts₂) h = refuses
close-Yields p ts (int v ∷ ts₂) h = refuses
close-Yields p ts (l_paren ∷ ts₂) h = refuses
close-Yields p ts (and_and ∷ ts₂) h = refuses
close-Yields p ts (or_or ∷ ts₂) h = refuses
close-Yields p ts (bang ∷ ts₂) h = refuses
close-Yields p ts (bad ∷ ts₂) h = refuses
close-Yields p ts (raised ∷ ts₂) h = refuses
close-Yields p ts (compares op ∷ ts₂) h = refuses

relation-Yields :
    (ts : List Token)
    → Yields false
        (λ r. Atom r.0 ts r.1)
        (on_accepted (parse_operand ts) (λ (o, ts₁). compare_rest o ts₁))
relation-Yields ts = Yields-on_accepted (parse_operand-Yields ts) (λ (o, ts₁) (n, e).
    subst (λ u. Yields false (λ r. Atom r.0 u r.1) (compare_rest o ts₁)) (sym e)
      (compare_rest-Yields o ts₁ n))

mutual
  unfolding parse_atom parse_unary more_and more_or parse_and parse_pred

  pub parse_atom-Yields :
      (f : ℕ) (ts : List Token) → Yields false (λ r. Atom r.0 ts r.1) (parse_atom f ts)
  parse_atom-Yields zero ts = runs_out refl
  parse_atom-Yields (suc f) (l_paren ∷ ts) =
      advance-Yields _ ts
        (Yields-on_accepted (parse_pred-Yields f ts) (λ (p, ts₂) h. close-Yields p ts ts₂ h))
  parse_atom-Yields (suc f) [] = relation-Yields []
  parse_atom-Yields (suc f) (ident w ∷ ts) = relation-Yields (ident w ∷ ts)
  parse_atom-Yields (suc f) (int v ∷ ts) = relation-Yields (int v ∷ ts)
  parse_atom-Yields (suc f) (r_paren ∷ ts) = relation-Yields (r_paren ∷ ts)
  parse_atom-Yields (suc f) (and_and ∷ ts) = relation-Yields (and_and ∷ ts)
  parse_atom-Yields (suc f) (or_or ∷ ts) = relation-Yields (or_or ∷ ts)
  parse_atom-Yields (suc f) (bang ∷ ts) = relation-Yields (bang ∷ ts)
  parse_atom-Yields (suc f) (bad ∷ ts) = relation-Yields (bad ∷ ts)
  parse_atom-Yields (suc f) (raised ∷ ts) = relation-Yields (raised ∷ ts)
  parse_atom-Yields (suc f) (compares op ∷ ts) = relation-Yields (compares op ∷ ts)

  pub parse_unary-Yields :
      (f : ℕ) (ts : List Token) → Yields false (λ r. Unary r.0 ts r.1) (parse_unary f ts)
  parse_unary-Yields zero ts = runs_out refl
  parse_unary-Yields (suc f) (bang ∷ ts) =
      advance-Yields _ ts
        (Yields-on_accepted (parse_unary-Yields f ts) (λ (p, ts₂) h. yields (not_unary h)))
  parse_unary-Yields (suc f) [] = Yields-weaken (λ r h. atom h) (parse_atom-Yields f [])
  parse_unary-Yields (suc f) (ident w ∷ ts) =
      Yields-weaken (λ r h. atom h) (parse_atom-Yields f (ident w ∷ ts))
  parse_unary-Yields (suc f) (int v ∷ ts) =
      Yields-weaken (λ r h. atom h) (parse_atom-Yields f (int v ∷ ts))
  parse_unary-Yields (suc f) (l_paren ∷ ts) =
      Yields-weaken (λ r h. atom h) (parse_atom-Yields f (l_paren ∷ ts))
  parse_unary-Yields (suc f) (r_paren ∷ ts) =
      Yields-weaken (λ r h. atom h) (parse_atom-Yields f (r_paren ∷ ts))
  parse_unary-Yields (suc f) (and_and ∷ ts) =
      Yields-weaken (λ r h. atom h) (parse_atom-Yields f (and_and ∷ ts))
  parse_unary-Yields (suc f) (or_or ∷ ts) =
      Yields-weaken (λ r h. atom h) (parse_atom-Yields f (or_or ∷ ts))
  parse_unary-Yields (suc f) (bad ∷ ts) =
      Yields-weaken (λ r h. atom h) (parse_atom-Yields f (bad ∷ ts))
  parse_unary-Yields (suc f) (raised ∷ ts) =
      Yields-weaken (λ r h. atom h) (parse_atom-Yields f (raised ∷ ts))
  parse_unary-Yields (suc f) (compares op ∷ ts) =
      Yields-weaken (λ r h. atom h) (parse_atom-Yields f (compares op ∷ ts))

  pub more_and-Yields :
      (f : ℕ) (ts : List Token) → Yields false (λ r. AndTail r.0 ts r.1) (more_and f ts)
  more_and-Yields zero ts = runs_out refl
  more_and-Yields (suc f) (and_and ∷ ts) = advance-Yields _ ts (
      Yields-on_accepted (parse_unary-Yields f ts) (λ (p, ts₂) h.
        Yields-on_accepted (more_and-Yields f ts₂) (λ (ps, ts₃) k. yields (and_more h k))))
  more_and-Yields (suc f) [] = yields and_done
  more_and-Yields (suc f) (ident w ∷ ts) = yields and_done
  more_and-Yields (suc f) (int v ∷ ts) = yields and_done
  more_and-Yields (suc f) (l_paren ∷ ts) = yields and_done
  more_and-Yields (suc f) (r_paren ∷ ts) = yields and_done
  more_and-Yields (suc f) (or_or ∷ ts) = yields and_done
  more_and-Yields (suc f) (bang ∷ ts) = yields and_done
  more_and-Yields (suc f) (bad ∷ ts) = yields and_done
  more_and-Yields (suc f) (raised ∷ ts) = yields and_done
  more_and-Yields (suc f) (compares op ∷ ts) = yields and_done

  pub more_or-Yields :
      (f : ℕ) (ts : List Token) → Yields false (λ r. OrTail r.0 ts r.1) (more_or f ts)
  more_or-Yields zero ts = runs_out refl
  more_or-Yields (suc f) (or_or ∷ ts) = advance-Yields _ ts (
      Yields-on_accepted (parse_and-Yields f ts) (λ (p, ts₂) h.
        Yields-on_accepted (more_or-Yields f ts₂) (λ (ps, ts₃) k. yields (or_more h k))))
  more_or-Yields (suc f) [] = yields or_done
  more_or-Yields (suc f) (ident w ∷ ts) = yields or_done
  more_or-Yields (suc f) (int v ∷ ts) = yields or_done
  more_or-Yields (suc f) (l_paren ∷ ts) = yields or_done
  more_or-Yields (suc f) (r_paren ∷ ts) = yields or_done
  more_or-Yields (suc f) (and_and ∷ ts) = yields or_done
  more_or-Yields (suc f) (bang ∷ ts) = yields or_done
  more_or-Yields (suc f) (bad ∷ ts) = yields or_done
  more_or-Yields (suc f) (raised ∷ ts) = yields or_done
  more_or-Yields (suc f) (compares op ∷ ts) = yields or_done

  pub parse_and-Yields :
      (f : ℕ) (ts : List Token) → Yields false (λ r. AndExpr r.0 ts r.1) (parse_and f ts)
  parse_and-Yields zero ts = runs_out refl
  parse_and-Yields (suc f) ts = Yields-on_accepted (parse_unary-Yields f ts) (λ (p, ts₁) h.
      Yields-on_accepted (more_and-Yields f ts₁) (λ (ps, ts₂) k. yields (and_expr h k)))

  pub parse_pred-Yields :
      (f : ℕ) (ts : List Token) → Yields false (λ r. OrExpr r.0 ts r.1) (parse_pred f ts)
  parse_pred-Yields zero ts = runs_out refl
  parse_pred-Yields (suc f) ts = Yields-on_accepted (parse_and-Yields f ts) (λ (p, ts₁) h.
      Yields-on_accepted (more_or-Yields f ts₁) (λ (ps, ts₂) k. yields (or_expr h k)))
