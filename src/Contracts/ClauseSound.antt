-- ===== src/Contracts/ClauseSound.antt =====
-- contracts/ContractParser.cpp: the clauses that `parseClauseBody` accepts derive from the grammar.
use code_skeptic.Prelude.{
  ◌≡◌, refl, sym, subst, ap, Bool, true, false, ◌||◌, none, some, List, [], ◌∷◌, if◌then◌else◌,
  Bool-cases, inl, inr, ◌∙◌, drop, is_nil,
}
use code_skeptic.Prelude.Text.{Text, codes, text_eq-path}
use code_skeptic.Contracts.{Pred, Clause, requires, ensures, returns_owned}
use code_skeptic.Contracts.Lexer.{
  is_space, drop_while, Token, ident, int, l_paren, r_paren, and_and, or_or, bang, bad, raised,
  compares,
}
use code_skeptic.Contracts.Outcome.{
  Outcome, accepted, on_accepted, Yields, yields, refuses, throws, Yields-on_accepted, Yields-value,
}
use code_skeptic.Contracts.Parser.{
  advance, parse_tokens, parse_requires, parse_ensures, parse_guard, at_end, starts_word,
  named_param, parse_owner, parse_returns, parse_policy, trim_end, after_first, all_name_chars,
}
use code_skeptic.Contracts.Grammar.{
  OrExpr, ClauseRule, OwnerWord, owner_clause, requires_rule, ensures_rule, ensures_if_rule,
  owner_rule, returns_rule, policy_rule,
}
use code_skeptic.Contracts.Sound.{advance-Yields, parse_pred-Yields}

starts_word-path : (w : Text) (ts : List Token) → starts_word w ts ≡ true → ts ≡ ident w ∷ drop 1 ts
unfolding starts_word
starts_word-path w [] h = cc
starts_word-path w (ident v ∷ ts) h = ap (λ u. ident u ∷ ts) (text_eq-path v w h)
starts_word-path w (int v ∷ ts) h = cc
starts_word-path w (l_paren ∷ ts) h = cc
starts_word-path w (r_paren ∷ ts) h = cc
starts_word-path w (and_and ∷ ts) h = cc
starts_word-path w (or_or ∷ ts) h = cc
starts_word-path w (bang ∷ ts) h = cc
starts_word-path w (bad ∷ ts) h = cc
starts_word-path w (raised ∷ ts) h = cc
starts_word-path w (compares op ∷ ts) h = cc

-- The clause is given only at the end of the tokens.
at_end-Yields :
    {Q : Clause → Type 0} (c : Clause) (rest : List Token)
    → (rest ≡ [] → Q c)
    → Yields false Q (at_end c rest)
unfolding at_end
at_end-Yields c [] h = yields (h refl)
at_end-Yields c (t ∷ ts) h = refuses

module _ (body : Text) where
  parse_requires-Yields :
      (ts : List Token)
      → Yields false (λ c. ClauseRule body c (ident (codes "requires") ∷ ts)) (parse_requires ts)
  unfolding parse_requires
  parse_requires-Yields ts = Yields-on_accepted (parse_pred-Yields _ ts) (λ (p, rest) h.
      at_end-Yields (requires p) rest (λ e. requires_rule (subst (OrExpr p ts) e h)))

  parse_guard-Yields :
      (p : Pred) (ts rest : List Token)
      → OrExpr p ts rest
      → Yields false (λ c. ClauseRule body c (ident (codes "ensures") ∷ ts)) (parse_guard p rest)
  unfolding parse_guard
  parse_guard-Yields p ts rest h = elim (Bool-cases (starts_word (codes "if") rest)) [
    | inl guarded ↦
        let if_first = subst (OrExpr p ts) (starts_word-path _ rest guarded) h in
        rw guarded (
          advance-Yields _ (drop 1 rest) (
            Yields-on_accepted (parse_pred-Yields _ (drop 1 rest)) (λ (g, rest₂) k.
              at_end-Yields (ensures p (some g)) rest₂
                (λ e. ensures_if_rule if_first (subst (OrExpr g (drop 1 rest)) e k)))))
    | inr plain ↦
        rw plain (at_end-Yields (ensures p none) rest (λ e. ensures_rule (subst (OrExpr p ts) e h)))
  ]

  parse_ensures-Yields :
      (ts : List Token)
      → Yields false (λ c. ClauseRule body c (ident (codes "ensures") ∷ ts)) (parse_ensures ts)
  unfolding parse_ensures
  parse_ensures-Yields ts =
      Yields-on_accepted (parse_pred-Yields _ ts) (λ (p, rest) h. parse_guard-Yields p ts rest h)

  named_param-Yields :
      (w : Text) (ts : List Token)
      → OwnerWord w
      → Yields false
          (λ c. ClauseRule body c (ident w ∷ l_paren ∷ ts))
          (named_param (owner_clause body) ts)
  unfolding named_param
  named_param-Yields w (ident n ∷ r_paren ∷ ts) k = advance-Yields _ ts (
      at_end-Yields (owner_clause body n) ts (λ e.
        subst
          (λ u. ClauseRule body (owner_clause body n) (ident w ∷ l_paren ∷ ident n ∷ r_paren ∷ u))
          (sym e) (owner_rule k)))
  named_param-Yields w (ident n ∷ raised ∷ ts) k = throws
  named_param-Yields w (ident n ∷ []) k = refuses
  named_param-Yields w (ident n ∷ ident v ∷ ts) k = refuses
  named_param-Yields w (ident n ∷ int v ∷ ts) k = refuses
  named_param-Yields w (ident n ∷ l_paren ∷ ts) k = refuses
  named_param-Yields w (ident n ∷ and_and ∷ ts) k = refuses
  named_param-Yields w (ident n ∷ or_or ∷ ts) k = refuses
  named_param-Yields w (ident n ∷ bang ∷ ts) k = refuses
  named_param-Yields w (ident n ∷ bad ∷ ts) k = refuses
  named_param-Yields w (ident n ∷ compares op ∷ ts) k = refuses
  named_param-Yields w [] k = refuses
  named_param-Yields w (int v ∷ ts) k = refuses
  named_param-Yields w (l_paren ∷ ts) k = refuses
  named_param-Yields w (r_paren ∷ ts) k = refuses
  named_param-Yields w (and_and ∷ ts) k = refuses
  named_param-Yields w (or_or ∷ ts) k = refuses
  named_param-Yields w (bang ∷ ts) k = refuses
  named_param-Yields w (bad ∷ ts) k = refuses
  named_param-Yields w (raised ∷ ts) k = refuses
  named_param-Yields w (compares op ∷ ts) k = refuses

  parse_owner-Yields :
      (w : Text) (ts : List Token)
      → OwnerWord w
      → Yields false (λ c. ClauseRule body c (ident w ∷ ts)) (parse_owner (owner_clause body) ts)
  unfolding parse_owner
  parse_owner-Yields w (l_paren ∷ ts) k = advance-Yields _ ts (named_param-Yields w ts k)
  parse_owner-Yields w [] k = refuses
  parse_owner-Yields w (ident v ∷ ts) k = refuses
  parse_owner-Yields w (int v ∷ ts) k = refuses
  parse_owner-Yields w (r_paren ∷ ts) k = refuses
  parse_owner-Yields w (and_and ∷ ts) k = refuses
  parse_owner-Yields w (or_or ∷ ts) k = refuses
  parse_owner-Yields w (bang ∷ ts) k = refuses
  parse_owner-Yields w (bad ∷ ts) k = refuses
  parse_owner-Yields w (raised ∷ ts) k = refuses
  parse_owner-Yields w (compares op ∷ ts) k = refuses

  parse_returns-Yields :
      (ts : List Token)
      → Yields false (λ c. ClauseRule body c (ident (codes "returns") ∷ ts)) (parse_returns ts)
  unfolding parse_returns
  parse_returns-Yields ts = elim (Bool-cases (starts_word (codes "owned") ts)) [
    | inl owned ↦ rw owned (
        advance-Yields _ (drop 1 ts) (
          at_end-Yields returns_owned (drop 1 ts) (λ e.
            subst (λ u. ClauseRule body returns_owned (ident (codes "returns") ∷ u))
              (sym (starts_word-path _ ts owned ∙ ap (λ u. ident (codes "owned") ∷ u) e))
              returns_rule)))
    | inr other ↦ rw other refuses
  ]

  if-Yields :
      {Q : Clause → Type 0} (b : Bool) {r s : Outcome Clause}
      → (b ≡ true → Yields false Q r)
      → (b ≡ false → Yields false Q s)
      → Yields false Q (if b then r else s)
  if-Yields true h k = h refl
  if-Yields false h k = k refl

  parse_policy-Yields :
      (ts : List Token)
      → Yields false (λ c. ClauseRule body c (ident (codes "policy") ∷ ts)) (parse_policy body ts)
  unfolding parse_policy
  parse_policy-Yields (ident n ∷ ts) =
      let name = trim_end (drop_while is_space (after_first (codes "policy") body)) in
      if-Yields (is_nil name) (λ e. refuses)
        (λ e. if-Yields (all_name_chars name) (λ e₂. yields policy_rule) (λ e₂. refuses))
  parse_policy-Yields [] = refuses
  parse_policy-Yields (int v ∷ ts) = refuses
  parse_policy-Yields (l_paren ∷ ts) = refuses
  parse_policy-Yields (r_paren ∷ ts) = refuses
  parse_policy-Yields (and_and ∷ ts) = refuses
  parse_policy-Yields (or_or ∷ ts) = refuses
  parse_policy-Yields (bang ∷ ts) = refuses
  parse_policy-Yields (bad ∷ ts) = refuses
  parse_policy-Yields (raised ∷ ts) = refuses
  parse_policy-Yields (compares op ∷ ts) = refuses

  -- A branch of the body's parser, after its word.
  branch-Yields :
      (w : Text) (ts : List Token) (parse : List Token → Outcome Clause)
      → starts_word w ts ≡ true
      → Yields false (λ c. ClauseRule body c (ident w ∷ drop 1 ts)) (parse (drop 1 ts))
      → Yields false (λ c. ClauseRule body c ts) (on_accepted (advance (drop 1 ts)) parse)
  branch-Yields w ts parse e h = advance-Yields parse (drop 1 ts) (
      subst (λ u. Yields false (λ c. ClauseRule body c u) (parse (drop 1 ts)))
        (sym (starts_word-path w ts e)) h)

  owner_branch-Yields :
      (ts : List Token)
      → (starts_word (codes "owns") ts || starts_word (codes "borrows") ts) ≡ true
      → Yields false
          (λ c. ClauseRule body c ts)
          (on_accepted (advance (drop 1 ts)) (parse_owner (owner_clause body)))
  owner_branch-Yields ts e = elim (Bool-cases (starts_word (codes "owns") ts)) [
    | inl own ↦
        branch-Yields _ ts (parse_owner (owner_clause body)) own
          (parse_owner-Yields (codes "owns") (drop 1 ts) (inl refl))
    | inr other ↦
        let borrow : starts_word (codes "borrows") ts ≡ true = rw other at e in
        branch-Yields _ ts (parse_owner (owner_clause body)) borrow
          (parse_owner-Yields (codes "borrows") (drop 1 ts) (inr refl))
  ]

  parse_tokens-Yields :
      (ts : List Token) → Yields false (λ c. ClauseRule body c ts) (parse_tokens body ts)
  unfolding parse_tokens
  parse_tokens-Yields ts =
      let rest = drop 1 ts in
      if-Yields (starts_word (codes "requires") ts)
        (λ e. branch-Yields _ ts parse_requires e (parse_requires-Yields rest))
        (λ e₁.
          if-Yields (starts_word (codes "ensures") ts)
            (λ e. branch-Yields _ ts parse_ensures e (parse_ensures-Yields rest))
            (λ e₂.
              if-Yields (starts_word (codes "owns") ts || starts_word (codes "borrows") ts)
                (λ e. owner_branch-Yields ts e)
                (λ e₃.
                  if-Yields (starts_word (codes "returns") ts)
                    (λ e. branch-Yields _ ts parse_returns e (parse_returns-Yields rest))
                    (λ e₄.
                      if-Yields (starts_word (codes "policy") ts)
                        (λ e. branch-Yields _ ts (parse_policy body) e (parse_policy-Yields rest))
                        (λ e₅. refuses)))))

-- The clause that the parser makes of the tokens of a body derives from them by the grammar, the
-- kind of an owner clause aside, which the text of the body decides, and a policy's name.
pub parse_tokens_sound :
    (body : Text) (ts : List Token) (c : Clause)
    → parse_tokens body ts ≡ accepted c
    → ClauseRule body c ts
parse_tokens_sound body ts c = Yields-value (parse_tokens-Yields body ts)
