-- ===== src/Contracts/Complete.antt =====
-- contracts/ContractParser.cpp: each "cs:" line becomes a clause or a syntax error.
use code_skeptic.Prelude.{
  true, ℕ, suc, ◌+◌, ◌≡◌, ◌≢◌, refl, Bool, List, [], ◌∷◌, length, length-append, arith,
  if◌then◌else◌, Bool-cases, inl, inr,
}
use code_skeptic.Prelude.Text.{Text, codes}
use code_skeptic.Contracts.{Clause, ParsedContracts}
use code_skeptic.Contracts.Outcome.{
  Outcome, accepted, refused, unfinished, Yields, yields, throws, Yields-on_accepted, Yields-weaken,
  Yields-value, Yields-finished,
}
use code_skeptic.Contracts.Parser.{is_prefix}
use code_skeptic.Contracts.Comments.{
  strip_comment_line, add_clause, parse_contract_line, parse_lines, split_lines, no_contracts,
  parse_contract_comment,
}
use code_skeptic.Contracts.Totality.{Ends, parse_clause_body-Ends}

-- The number of lines that a contract tag starts, once stripped.
unfoldable pub tagged_lines : List Text → ℕ
tagged_lines [] = 0
tagged_lines (l ∷ ls) =
    let rest = tagged_lines ls in
    if is_prefix (codes "cs:") (strip_comment_line l) then suc rest else rest

abbrev pub comment_lines : Text → List Text
comment_lines comment = (split_lines comment).0 ∷ (split_lines comment).1

abbrev pub parsed_count : ParsedContracts → ℕ
parsed_count out = length out.clauses + length out.syntax_errors

-- The function ended, and what it returned has n entries.
abbrev CountIs : ℕ → Outcome ParsedContracts → Type 0
CountIs n = Yields true (λ out. parsed_count out ≡ n)

add_clause-CountIs :
    (n : ℕ) (line body : Text) (machine : Bool) (r : Outcome Clause) (out : ParsedContracts)
    → Ends r
    → CountIs (parsed_count out + 1) (add_clause n line body machine r out)
unfolding add_clause
add_clause-CountIs n line body machine (accepted c) out h =
    yields (omega (arith, length-append out.clauses))
add_clause-CountIs n line body machine refused out h =
    yields (omega (arith, length-append out.syntax_errors))
add_clause-CountIs n line body machine Outcome.raised out h = throws
add_clause-CountIs n line body machine unfinished out h = absurd (Yields-finished h refl)

parse_contract_line-CountIs :
    (n : ℕ) (line : Text) (out : ParsedContracts)
    → CountIs
        (parsed_count out + (if is_prefix (codes "cs:") line then 1 else 0))
        (parse_contract_line n line out)
unfolding parse_contract_line
parse_contract_line-CountIs n line out = elim (Bool-cases (is_prefix (codes "cs:") line)) [
  | inl tagged ↦ rw (tagged) (add_clause-CountIs n line _ _ _ out (parse_clause_body-Ends _))
  | inr other ↦ rw other (yields (omega arith))
]

parse_lines-CountIs :
    (n : ℕ) (ls : List Text) (out : ParsedContracts)
    → CountIs (parsed_count out + tagged_lines ls) (parse_lines n ls out)
unfolding parse_lines tagged_lines
parse_lines-CountIs n [] out = yields (omega arith)
parse_lines-CountIs n (l ∷ ls) out =
    Yields-on_accepted (parse_contract_line-CountIs n (strip_comment_line l) out) (λ out₁ counted.
      Yields-weaken (λ out₂ later. ground arith) (parse_lines-CountIs (n + 1) ls out₁))

parse_contract_comment-CountIs :
    (comment : Text)
    → CountIs (tagged_lines (comment_lines comment)) (parse_contract_comment comment)
unfolding parse_contract_comment
parse_contract_comment-CountIs comment =
    Yields-weaken (λ out counted. omega arith)
      (parse_lines-CountIs 1 (comment_lines comment) no_contracts)

-- The contract parser of a comment ends: it returns, or leaves by an exception of `std::stoll`.
pub parse_contract_comment_total : (comment : Text) → parse_contract_comment comment ≢ unfinished
parse_contract_comment_total comment = Yields-finished (parse_contract_comment-CountIs comment)

-- If the parser of a comment returns, then each line that a contract tag starts, once stripped of
-- comment marks, has become one clause or one syntax error, and no other line has.
pub parse_contract_comment_counts :
    (comment : Text) (out : ParsedContracts)
    → parse_contract_comment comment ≡ accepted out
    → length out.clauses + length out.syntax_errors ≡ tagged_lines (comment_lines comment)
parse_contract_comment_counts comment out = Yields-value (parse_contract_comment-CountIs comment)
