-- ===== src/Contracts/Parser.antt =====
-- contracts/ContractParser.cpp: the class Parser and `parseClauseBody`.
use code_skeptic.Prelude.{
  ℕ, zero, suc, ◌+◌, ◌*◌, Bool, true, false, ◌&&◌, ◌||◌, Option, none, some, List, [], ◌∷◌, ◌==◌,
  if◌then◌else◌, length, drop, is_nil,
}
use code_skeptic.Prelude.Text.{Text, codes, text_eq}
use code_skeptic.Contracts.{
  Operand, Pred, Preds, Clause, return_value, null, param, int_lit, cmp, truth, negation,
  conjunction, disjunction, no_more, more, requires, ensures, owns, borrows, returns_owned, policy,
}
use code_skeptic.Contracts.Lexer.{
  Token, ident, int, l_paren, r_paren, and_and, or_or, bang, raised, compares, is_space, is_word,
  drop_while, tokens,
}
use code_skeptic.Contracts.Outcome.{Outcome, accepted, refused, unfinished, on_accepted}

-- The state of the parser is the tokens from the current one on. A bad token is never consumed, so
-- the flag `failed_` is set exactly if one stands at the head when a clause ends.
abbrev pub Parses : Type 0 → Type 0
Parses A = Outcome (A × List Token)

-- Reading the next token, which may throw.
unfoldable pub advance : List Token → Outcome (List Token)
advance (raised ∷ ts) = Outcome.raised
advance ts = accepted ts

unfoldable pub operand_of : Text → Option Operand
operand_of w =
    if text_eq w (codes "return")
    then some return_value
    else if text_eq w (codes "null")
    then some null
    else if text_eq w (codes "if")
    then none
    else some (param w)

unfoldable pub past : {A : Type 0} → A → List Token → Parses A
past a ts = on_accepted (advance ts) (λ rest. accepted (a, rest))

unfoldable pub word_operand : Option Operand → List Token → Parses Operand
word_operand none ts = refused
word_operand (some o) ts = past o ts

unfoldable pub parse_operand : List Token → Parses Operand
parse_operand (int v ∷ ts) = past (int_lit v) ts
parse_operand (ident w ∷ ts) = word_operand (operand_of w) ts
parse_operand _ = refused

unfoldable pub compare_rest : Operand → List Token → Parses Pred
compare_rest o (compares op ∷ ts) =
    on_accepted (advance ts)
      (λ ts₁. on_accepted (parse_operand ts₁) (λ (r, ts₂). accepted (cmp o op r, ts₂)))
compare_rest o ts = accepted (truth o, ts)

unfoldable pub close : Pred → List Token → Parses Pred
close p (r_paren ∷ ts) = past p ts
close p _ = refused

unfoldable pub all_of : Pred → Preds → Pred
all_of p no_more = p
all_of p (more q qs) = conjunction p q qs

unfoldable pub any_of : Pred → Preds → Pred
any_of p no_more = p
any_of p (more q qs) = disjunction p q qs

-- The descent, on fuel. The loops of `parseAnd` and `parsePred` are functions of their own.
unfoldable mutual
  pub parse_atom : ℕ → List Token → Parses Pred
  parse_atom zero ts = unfinished
  parse_atom (suc f) (l_paren ∷ ts) =
      on_accepted (advance ts) (λ ts₁. on_accepted (parse_pred f ts₁) (λ (p, ts₂). close p ts₂))
  parse_atom (suc f) ts = on_accepted (parse_operand ts) (λ (o, ts₁). compare_rest o ts₁)

  pub parse_unary : ℕ → List Token → Parses Pred
  parse_unary zero ts = unfinished
  parse_unary (suc f) (bang ∷ ts) =
      on_accepted (advance ts)
        (λ ts₁. on_accepted (parse_unary f ts₁) (λ (p, ts₂). accepted (negation p, ts₂)))
  parse_unary (suc f) ts = parse_atom f ts

  pub more_and : ℕ → List Token → Parses Preds
  more_and zero ts = unfinished
  more_and (suc f) (and_and ∷ ts) = on_accepted (advance ts) (λ ts₁.
      on_accepted (parse_unary f ts₁)
        (λ (p, ts₂). on_accepted (more_and f ts₂) (λ (ps, ts₃). accepted (more p ps, ts₃))))
  more_and (suc f) ts = accepted (no_more, ts)

  pub parse_and : ℕ → List Token → Parses Pred
  parse_and zero ts = unfinished
  parse_and (suc f) ts =
      on_accepted (parse_unary f ts)
        (λ (p, ts₁). on_accepted (more_and f ts₁) (λ (ps, ts₂). accepted (all_of p ps, ts₂)))

  pub more_or : ℕ → List Token → Parses Preds
  more_or zero ts = unfinished
  more_or (suc f) (or_or ∷ ts) = on_accepted (advance ts) (λ ts₁.
      on_accepted (parse_and f ts₁)
        (λ (p, ts₂). on_accepted (more_or f ts₂) (λ (ps, ts₃). accepted (more p ps, ts₃))))
  more_or (suc f) ts = accepted (no_more, ts)

  pub parse_pred : ℕ → List Token → Parses Pred
  parse_pred zero ts = unfinished
  parse_pred (suc f) ts =
      on_accepted (parse_and f ts)
        (λ (p, ts₁). on_accepted (more_or f ts₁) (λ (ps, ts₂). accepted (any_of p ps, ts₂)))

-- Enough for any predicate in the tokens.
unfoldable pub fuel_for : List Token → ℕ
fuel_for ts = 5 * length ts + 6

unfoldable pub starts_word : Text → List Token → Bool
starts_word w (ident v ∷ ts) = text_eq v w
starts_word w _ = false

unfoldable pub at_end : Clause → List Token → Outcome Clause
at_end c [] = accepted c
at_end c _ = refused

unfoldable pub parse_requires : List Token → Outcome Clause
parse_requires ts =
    on_accepted (parse_pred (fuel_for ts) ts) (λ (p, rest). at_end (requires p) rest)

-- What follows the predicate of `ensures`.
unfoldable pub parse_guard : Pred → List Token → Outcome Clause
parse_guard p ts =
    let guarded = on_accepted (advance (drop 1 ts)) (λ ts₁.
      on_accepted (parse_pred (fuel_for ts₁) ts₁)
        (λ (g, rest). at_end (ensures p (some g)) rest)) in
    if starts_word (codes "if") ts then guarded else at_end (ensures p none) ts

unfoldable pub parse_ensures : List Token → Outcome Clause
parse_ensures ts = on_accepted (parse_pred (fuel_for ts) ts) (λ (p, rest). parse_guard p rest)

unfoldable pub is_prefix : Text → Text → Bool
is_prefix [] t = true
is_prefix (c ∷ cs) [] = false
is_prefix (c ∷ cs) (d ∷ ds) = c == d && is_prefix cs ds

unfoldable pub named_param : (Text → Clause) → List Token → Outcome Clause
named_param kind (ident n ∷ r_paren ∷ ts) = on_accepted (advance ts) (at_end (kind n))
named_param kind (ident n ∷ raised ∷ ts) = Outcome.raised
named_param kind _ = refused

unfoldable pub parse_owner : (Text → Clause) → List Token → Outcome Clause
parse_owner kind (l_paren ∷ ts) = on_accepted (advance ts) (named_param kind)
parse_owner kind _ = refused

unfoldable pub parse_returns : List Token → Outcome Clause
parse_returns ts =
    let owned = on_accepted (advance (drop 1 ts)) (at_end returns_owned) in
    if starts_word (codes "owned") ts then owned else refused

-- The text after the first occurrence of a word.
unfoldable pub after_first : Text → Text → Text
after_first w [] = []
after_first w (c ∷ cs) =
    let later = after_first w cs in if is_prefix w (c ∷ cs) then drop (length w) (c ∷ cs) else later

unfoldable pub trim_end : Text → Text
trim_end [] = []
trim_end (c ∷ cs) = let rest = trim_end cs in if is_nil rest && is_space c then [] else c ∷ rest

unfoldable pub all_name_chars : Text → Bool
all_name_chars [] = true
all_name_chars (c ∷ cs) = (is_word c || c == b'-') && all_name_chars cs

unfoldable pub parse_policy : Text → List Token → Outcome Clause
parse_policy body (ident n ∷ ts) =
    let name = trim_end (drop_while is_space (after_first (codes "policy") body)) in
    if is_nil name then refused else if all_name_chars name then accepted (policy name) else refused
parse_policy body _ = refused

-- `parseClauseBody`, from the tokens of the body.
unfoldable pub parse_tokens : Text → List Token → Outcome Clause
parse_tokens body ts =
    let rest = advance (drop 1 ts) in
    if starts_word (codes "requires") ts
    then on_accepted rest parse_requires
    else if starts_word (codes "ensures") ts
    then on_accepted rest parse_ensures
    else if starts_word (codes "owns") ts || starts_word (codes "borrows") ts
    then on_accepted rest (parse_owner (if is_prefix (codes "owns") body then owns else borrows))
    else if starts_word (codes "returns") ts
    then on_accepted rest parse_returns
    else if starts_word (codes "policy") ts
    then on_accepted rest (parse_policy body)
    else refused

unfoldable pub parse_clause_body : Text → Outcome Clause
parse_clause_body body = on_accepted (advance (tokens body)) (parse_tokens body)
