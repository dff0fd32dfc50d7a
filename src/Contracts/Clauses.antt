-- ===== src/Contracts/Clauses.antt =====
-- contracts/ContractParser.cpp: the parser reads back the clauses that have predicates.
use code_skeptic.Prelude.{◌≡◌, refl, true, Option, none, some, List, [], arith, ◌*◌, ◌+◌, length}
use code_skeptic.Prelude.Text.{Text, text_eq}
use code_skeptic.Contracts.{Pred, requires, ensures}
use code_skeptic.Contracts.Lexer.{Token}
use code_skeptic.Contracts.Outcome.{accepted}
use code_skeptic.Contracts.Parser.{
  parse_pred, fuel_for, at_end, starts_word, parse_requires, parse_guard, parse_ensures,
  parse_tokens,
}
use code_skeptic.Contracts.Printer.{
  emit, Named, NamedGuard, requires_tokens, guard_tokens, ensures_tokens,
}
use code_skeptic.Contracts.Reads.{stops}
use code_skeptic.Contracts.RoundTrip.{emit-Calm, emit-Reads}

parse_pred-emit :
    (p : Pred) (rest : List Token)
    → Named p
    → stops rest ≡ true
    → parse_pred (fuel_for (emit p rest)) (emit p rest) ≡ accepted (p, rest)
unfolding fuel_for
parse_pred-emit p rest h s = emit-Reads p rest h s (5 * length (emit p rest) + 6) (omega arith)

parse_requires-emit : (p : Pred) → Named p → parse_requires (emit p []) ≡ accepted (requires p)
unfolding parse_requires at_end stops
parse_requires-emit p h = rw (parse_pred-emit p [] h refl) refl

parse_guard-guard_tokens :
    (p : Pred) (g : Option Pred)
    → NamedGuard g
    → parse_guard p (guard_tokens g) ≡ accepted (ensures p g)
unfolding parse_guard guard_tokens starts_word text_eq at_end stops
parse_guard-guard_tokens p none h = refl
parse_guard-guard_tokens p (some g) h = rw (emit-Calm g []) (rw (parse_pred-emit g [] h refl) refl)

stops-guard_tokens : (g : Option Pred) → stops (guard_tokens g) ≡ true
unfolding stops guard_tokens
stops-guard_tokens none = refl
stops-guard_tokens (some g) = refl

parse_ensures-emit :
    (p : Pred) (g : Option Pred)
    → Named p
    → NamedGuard g
    → parse_ensures (emit p (guard_tokens g)) ≡ accepted (ensures p g)
unfolding parse_ensures
parse_ensures-emit p g h k =
    rw (parse_pred-emit p (guard_tokens g) h (stops-guard_tokens g))
      (parse_guard-guard_tokens p g k)

-- The printed tokens of a clause `requires` or `ensures`, guarded or not, none of whose parameters
-- is a keyword, are parsed as that clause.
pub parse_tokens_roundtrip :
    (body : Text) (p : Pred) (g : Option Pred)
    → Named p
    → NamedGuard g
    → (parse_tokens body (requires_tokens p) ≡ accepted (requires p))
      × (parse_tokens body (ensures_tokens p g) ≡ accepted (ensures p g))
unfolding parse_tokens requires_tokens ensures_tokens starts_word text_eq
parse_tokens_roundtrip body p g h k = (
  rw (emit-Calm p []) (parse_requires-emit p h),
  rw (emit-Calm p (guard_tokens g)) (parse_ensures-emit p g h k),
)
