-- ===== src/Contracts/Totality.antt =====
-- contracts/ContractParser.cpp: `parseClauseBody` returns or throws.
use code_skeptic.Prelude.{
  Bool, true, false, none, some, List, [], ◌∷◌, drop, arith, if◌then◌else◌, ◌||◌,
}
use code_skeptic.Prelude.Text.{Text, codes}
use code_skeptic.Contracts.{Clause, Pred, requires, ensures, owns, borrows, returns_owned}
use code_skeptic.Contracts.Lexer.{
  Token, ident, int, l_paren, r_paren, and_and, or_or, bang, bad, raised, compares, tokens,
}
use code_skeptic.Contracts.Outcome.{
  Outcome, on_accepted, Yields, yields, refuses, throws, Yields-on_accepted,
}
use code_skeptic.Contracts.Parser.{
  advance, parse_pred, fuel_for, at_end, starts_word, parse_requires, parse_guard, parse_ensures,
  named_param, parse_owner, parse_returns, parse_policy, parse_tokens, parse_clause_body, is_prefix,
}
use code_skeptic.Contracts.Fuel.{advance-length, parse_pred-Shorter}

abbrev pub Ends : {A : Type 0} → Outcome A → Type 0
Ends = Yields true (λ a. Unit)

at_end-Ends : (c : Clause) (ts : List Token) → Ends (at_end c ts)
unfolding at_end
at_end-Ends c [] = yields tt
at_end-Ends c (t ∷ ts) = refuses

if-Ends : {A : Type 0} (b : Bool) {r s : Outcome A} → Ends r → Ends s → Ends (if b then r else s)
if-Ends true h k = h
if-Ends false h k = k

pred-Ends :
    {A : Type 0} {k : Pred × List Token → Outcome A} (ts : List Token)
    → ((r : Pred × List Token) → Ends (k r))
    → Ends (on_accepted (parse_pred (fuel_for ts) ts) k)
unfolding fuel_for
pred-Ends ts h = Yields-on_accepted (parse_pred-Shorter _ ts (omega arith)) (λ r e. h r)

advance-Ends :
    {A : Type 0} {k : List Token → Outcome A} (ts : List Token)
    → ((rest : List Token) → Ends (k rest))
    → Ends (on_accepted (advance ts) k)
advance-Ends ts h = Yields-on_accepted (advance-length ts) (λ rest e. h rest)

parse_requires-Ends : (ts : List Token) → Ends (parse_requires ts)
unfolding parse_requires
parse_requires-Ends ts = pred-Ends ts (λ (p, rest). at_end-Ends (requires p) rest)

parse_guard-Ends : (p : Pred) (ts : List Token) → Ends (parse_guard p ts)
unfolding parse_guard
parse_guard-Ends p ts =
    if-Ends (starts_word (codes "if") ts)
      (advance-Ends (drop 1 ts)
        (λ ts₁. pred-Ends ts₁ (λ (g, rest). at_end-Ends (ensures p (some g)) rest)))
      (at_end-Ends (ensures p none) ts)

parse_ensures-Ends : (ts : List Token) → Ends (parse_ensures ts)
unfolding parse_ensures
parse_ensures-Ends ts = pred-Ends ts (λ (p, rest). parse_guard-Ends p rest)

named_param-Ends : (kind : Text → Clause) (ts : List Token) → Ends (named_param kind ts)
unfolding named_param
named_param-Ends kind (ident n ∷ r_paren ∷ ts) = advance-Ends ts (at_end-Ends (kind n))
named_param-Ends kind (ident n ∷ raised ∷ ts) = throws
named_param-Ends kind (ident n ∷ []) = refuses
named_param-Ends kind (ident n ∷ ident w ∷ ts) = refuses
named_param-Ends kind (ident n ∷ int v ∷ ts) = refuses
named_param-Ends kind (ident n ∷ l_paren ∷ ts) = refuses
named_param-Ends kind (ident n ∷ and_and ∷ ts) = refuses
named_param-Ends kind (ident n ∷ or_or ∷ ts) = refuses
named_param-Ends kind (ident n ∷ bang ∷ ts) = refuses
named_param-Ends kind (ident n ∷ bad ∷ ts) = refuses
named_param-Ends kind (ident n ∷ compares op ∷ ts) = refuses
named_param-Ends kind [] = refuses
named_param-Ends kind (int v ∷ ts) = refuses
named_param-Ends kind (l_paren ∷ ts) = refuses
named_param-Ends kind (r_paren ∷ ts) = refuses
named_param-Ends kind (and_and ∷ ts) = refuses
named_param-Ends kind (or_or ∷ ts) = refuses
named_param-Ends kind (bang ∷ ts) = refuses
named_param-Ends kind (bad ∷ ts) = refuses
named_param-Ends kind (raised ∷ ts) = refuses
named_param-Ends kind (compares op ∷ ts) = refuses

parse_owner-Ends : (kind : Text → Clause) (ts : List Token) → Ends (parse_owner kind ts)
unfolding parse_owner
parse_owner-Ends kind (l_paren ∷ ts) = advance-Ends ts (named_param-Ends kind)
parse_owner-Ends kind [] = refuses
parse_owner-Ends kind (ident w ∷ ts) = refuses
parse_owner-Ends kind (int v ∷ ts) = refuses
parse_owner-Ends kind (r_paren ∷ ts) = refuses
parse_owner-Ends kind (and_and ∷ ts) = refuses
parse_owner-Ends kind (or_or ∷ ts) = refuses
parse_owner-Ends kind (bang ∷ ts) = refuses
parse_owner-Ends kind (bad ∷ ts) = refuses
parse_owner-Ends kind (raised ∷ ts) = refuses
parse_owner-Ends kind (compares op ∷ ts) = refuses

parse_returns-Ends : (ts : List Token) → Ends (parse_returns ts)
unfolding parse_returns
parse_returns-Ends ts =
    if-Ends (starts_word (codes "owned") ts) (advance-Ends (drop 1 ts) (at_end-Ends returns_owned))
      refuses

parse_policy-Ends : (body : Text) (ts : List Token) → Ends (parse_policy body ts)
unfolding parse_policy
parse_policy-Ends body (ident n ∷ ts) = if-Ends _ refuses (if-Ends _ (yields tt) refuses)
parse_policy-Ends body [] = refuses
parse_policy-Ends body (int v ∷ ts) = refuses
parse_policy-Ends body (l_paren ∷ ts) = refuses
parse_policy-Ends body (r_paren ∷ ts) = refuses
parse_policy-Ends body (and_and ∷ ts) = refuses
parse_policy-Ends body (or_or ∷ ts) = refuses
parse_policy-Ends body (bang ∷ ts) = refuses
parse_policy-Ends body (bad ∷ ts) = refuses
parse_policy-Ends body (raised ∷ ts) = refuses
parse_policy-Ends body (compares op ∷ ts) = refuses

parse_tokens-Ends : (body : Text) (ts : List Token) → Ends (parse_tokens body ts)
unfolding parse_tokens
parse_tokens-Ends body ts =
    let rest = drop 1 ts in
    let kind = if is_prefix (codes "owns") body then owns else borrows in
    if-Ends (starts_word (codes "requires") ts) (advance-Ends rest parse_requires-Ends) (
      if-Ends (starts_word (codes "ensures") ts) (advance-Ends rest parse_ensures-Ends) (
        if-Ends (starts_word (codes "owns") ts || starts_word (codes "borrows") ts)
          (advance-Ends rest (parse_owner-Ends kind))
          (if-Ends (starts_word (codes "returns") ts) (advance-Ends rest parse_returns-Ends) (
            if-Ends (starts_word (codes "policy") ts) (advance-Ends rest (parse_policy-Ends body))
              refuses))))

pub parse_clause_body-Ends : (body : Text) → Ends (parse_clause_body body)
unfolding parse_clause_body
parse_clause_body-Ends body = advance-Ends (tokens body) (parse_tokens-Ends body)
