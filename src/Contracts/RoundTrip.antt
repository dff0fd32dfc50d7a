-- ===== src/Contracts/RoundTrip.antt =====
-- contracts/ContractParser.cpp: the parser reads back what the printer wrote.
use code_skeptic.Prelude.{ℕ, zero, suc, ◌≡◌, refl, true, false, some, List, ◌∷◌, arith}
use code_skeptic.Prelude.Text.{Text, text_eq}
use code_skeptic.Contracts.{
  Operand, Pred, Preds, return_value, null, param, int_lit, cmp, truth, negation, conjunction,
  disjunction, no_more, more, CmpOp,
}
use code_skeptic.Contracts.Lexer.{Token, r_paren, and_and, or_or, compares}
use code_skeptic.Contracts.Outcome.{accepted, on_accepted}
use code_skeptic.Contracts.Parser.{
  advance, past, word_operand, operand_of, parse_operand, compare_rest, all_of, any_of, parse_atom,
  parse_unary, more_and, more_or, parse_pred,
}
use code_skeptic.Contracts.Printer.{
  emit_operand, emit, wrapped, emit_all, is_keyword, NamedOperand, Named, AllNamed,
}
use code_skeptic.Contracts.Reads.{
  Reads, Calm, stops, parse_and-Reads, parse_pred-Reads, more_and-Reads, more_or-Reads,
  negation-Reads, wrapped-Reads, stops-Calm, compare_rest-stops, more_and-stops, more_or-stops,
}

emit_operand-Calm : (o : Operand) (ts : List Token) → Calm (emit_operand o ∷ ts)
unfolding emit_operand advance
emit_operand-Calm return_value ts = refl
emit_operand-Calm null ts = refl
emit_operand-Calm (param n) ts = refl
emit_operand-Calm (int_lit v) ts = refl

pub emit-Calm : (p : Pred) (rest : List Token) → Calm (emit p rest)
unfolding emit advance
emit-Calm (cmp a op b) rest = emit_operand-Calm a _
emit-Calm (truth a) rest = emit_operand-Calm a _
emit-Calm (negation p) rest = refl
emit-Calm (conjunction p q qs) rest = refl
emit-Calm (disjunction p q qs) rest = refl

operand_of-param : (n : Text) → is_keyword n ≡ false → operand_of n ≡ some (param n)
unfolding is_keyword operand_of
operand_of-param n h = ground arith

parse_operand-emit_operand :
    (o : Operand) (ts : List Token)
    → NamedOperand o
    → Calm ts
    → parse_operand (emit_operand o ∷ ts) ≡ accepted (o, ts)
unfolding emit_operand parse_operand past word_operand operand_of text_eq
parse_operand-emit_operand return_value ts h c = rw c refl
parse_operand-emit_operand null ts h c = rw c refl
parse_operand-emit_operand (param n) ts h c =
    let e : word_operand (operand_of n) ts ≡ accepted (param n, ts) =
      rw (operand_of-param n h) (rw c refl) in
    e
parse_operand-emit_operand (int_lit v) ts h c = rw c refl

parse_unary-emit_operand :
    (f : ℕ) (o : Operand) (ts : List Token)
    → parse_unary (suc (suc f)) (emit_operand o ∷ ts)
      ≡ on_accepted (parse_operand (emit_operand o ∷ ts)) (λ (o₁, ts₁). compare_rest o₁ ts₁)
unfolding emit_operand parse_unary parse_atom
parse_unary-emit_operand f return_value ts = refl
parse_unary-emit_operand f null ts = refl
parse_unary-emit_operand f (param n) ts = refl
parse_unary-emit_operand f (int_lit v) ts = refl

leaf-Reads :
    (o : Operand) (ts : List Token) {rest : List Token} {p : Pred}
    → NamedOperand o
    → Calm ts
    → compare_rest o ts ≡ accepted (p, rest)
    → Reads parse_unary 2 p (emit_operand o ∷ ts) rest
leaf-Reads o ts h c k zero e = absurd (omega arith)
leaf-Reads o ts h c k (suc zero) e = absurd (omega arith)
leaf-Reads o ts h c k (suc (suc f)) e =
    rw (parse_unary-emit_operand f o ts) (rw (parse_operand-emit_operand o ts h c) k)

-- A predicate that is read as an operand of a connective is read as a whole.
alone-Reads :
    (p : Pred) (ts : List Token) {rest : List Token}
    → stops rest ≡ true
    → Reads parse_unary 2 p ts rest
    → Reads parse_pred 4 p ts rest
unfolding all_of any_of
alone-Reads p ts {rest} s h =
    parse_pred-Reads ts {ps = no_more}
      (parse_and-Reads ts {ps = no_more} h (λ f e. more_and-stops f rest s e))
      (λ f e. more_or-stops f rest s e)

emit_all-Calm :
    (t : Token) (ps : Preds) (rest : List Token)
    → ((ts : List Token) → Calm (t ∷ ts))
    → stops rest ≡ true
    → Calm (emit_all t ps rest)
unfolding emit_all
emit_all-Calm t no_more rest c s = stops-Calm rest s
emit_all-Calm t (more p ps) rest c s = c _

stops-paren : (ts : List Token) → stops (r_paren ∷ ts) ≡ true
unfolding stops
stops-paren ts = refl

child-Reads :
    (p : Pred) (rest : List Token)
    → Calm rest
    → Reads parse_pred 4 p (emit p (r_paren ∷ rest)) (r_paren ∷ rest)
    → Reads parse_unary 2 p (wrapped p rest) rest
child-Reads p rest c h = wrapped-Reads (emit p (r_paren ∷ rest)) (emit-Calm p _) c h

compare_rest-emit_operand :
    (a b : Operand) (op : CmpOp) (rest : List Token)
    → NamedOperand b
    → Calm rest
    → compare_rest a (compares op ∷ emit_operand b ∷ rest) ≡ accepted (cmp a op b, rest)
unfolding compare_rest
compare_rest-emit_operand a b op rest h c =
    rw (emit_operand-Calm b rest) (rw (parse_operand-emit_operand b rest h c) refl)

more_and-emit_all :
    (ps : Preds) (rest : List Token)
    → stops rest ≡ true
    → Reads more_and 1 no_more (emit_all or_or ps rest) (emit_all or_or ps rest)
unfolding emit_all more_and
more_and-emit_all no_more rest s f e = more_and-stops f rest s e
more_and-emit_all (more p ps) rest s zero e = absurd (omega arith)
more_and-emit_all (more p ps) rest s (suc f) e = refl

mutual
  unfolding emit emit_all advance all_of any_of

  pub emit-Reads :
      (p : Pred) (rest : List Token)
      → Named p
      → stops rest ≡ true
      → Reads parse_pred 4 p (emit p rest) rest
  emit-Reads (cmp a op b) rest h s = alone-Reads (cmp a op b) _ s (
      leaf-Reads a (compares op ∷ emit_operand b ∷ rest) h.0 refl
        (compare_rest-emit_operand a b op rest h.1 (stops-Calm rest s)))
  emit-Reads (truth a) rest h s =
      alone-Reads (truth a) _ s
        (leaf-Reads a rest h (stops-Calm rest s) (compare_rest-stops a rest s))
  emit-Reads (negation p) rest h s = alone-Reads (negation p) _ s (
      negation-Reads (wrapped p rest) refl
        (child-Reads p rest (stops-Calm rest s) (emit-Reads p (r_paren ∷ rest) h (stops-paren _))))
  emit-Reads (conjunction p q qs) rest h s =
      let tail = emit_all and_and qs rest in
      let others = and_and ∷ wrapped q tail in
      let calm = emit_all-Calm and_and qs rest (λ ts. refl) s in
      parse_pred-Reads (wrapped p others) {ps = no_more}
        (parse_and-Reads (wrapped p others) {ps = more q qs}
          (child-Reads p others refl (emit-Reads p (r_paren ∷ others) h.0 (stops-paren _)))
          (more_and-Reads (wrapped q tail) refl
            (child-Reads q tail calm (emit-Reads q (r_paren ∷ tail) h.1.0 (stops-paren _)))
            (and_all-Reads qs rest h.1.1 s)))
        (λ f e. more_or-stops f rest s e)
  emit-Reads (disjunction p q qs) rest h s =
      let tail = emit_all or_or qs rest in
      let others = or_or ∷ wrapped q tail in
      let calm = emit_all-Calm or_or qs rest (λ ts. refl) s in
      parse_pred-Reads (wrapped p others) {ps = more q qs}
        (parse_and-Reads (wrapped p others) {ps = no_more}
          (child-Reads p others refl (emit-Reads p (r_paren ∷ others) h.0 (stops-paren _)))
          (more_and-emit_all (more q qs) rest s))
        (more_or-Reads (wrapped q tail) refl
          (parse_and-Reads (wrapped q tail) {ps = no_more}
            (child-Reads q tail calm (emit-Reads q (r_paren ∷ tail) h.1.0 (stops-paren _)))
            (more_and-emit_all qs rest s))
          (or_all-Reads qs rest h.1.1 s))

  and_all-Reads :
      (ps : Preds) (rest : List Token)
      → AllNamed ps
      → stops rest ≡ true
      → Reads more_and 1 ps (emit_all and_and ps rest) rest
  and_all-Reads no_more rest h s = λ f e. more_and-stops f rest s e
  and_all-Reads (more p ps) rest h s =
      let tail = emit_all and_and ps rest in
      more_and-Reads (wrapped p tail) refl
        (child-Reads p tail (emit_all-Calm and_and ps rest (λ ts. refl) s)
          (emit-Reads p (r_paren ∷ tail) h.0 (stops-paren _)))
        (and_all-Reads ps rest h.1 s)

  or_all-Reads :
      (ps : Preds) (rest : List Token)
      → AllNamed ps
      → stops rest ≡ true
      → Reads more_or 1 ps (emit_all or_or ps rest) rest
  or_all-Reads no_more rest h s = λ f e. more_or-stops f rest s e
  or_all-Reads (more p ps) rest h s =
      let tail = emit_all or_or ps rest in
      more_or-Reads (wrapped p tail) refl
        (parse_and-Reads (wrapped p tail) {ps = no_more}
          (child-Reads p tail (emit_all-Calm or_or ps rest (λ ts. refl) s)
            (emit-Reads p (r_paren ∷ tail) h.0 (stops-paren _)))
          (more_and-emit_all ps rest s))
        (or_all-Reads ps rest h.1 s)
