-- ===== src/Contracts/Comments.antt =====
-- contracts/ContractParser.cpp: `stripCommentLine` and `parseContractComment`.
use code_skeptic.Prelude.{
  ℕ, ◌+◌, Bool, ◌&&◌, ◌||◌, List, [], ◌∷◌, ◌++◌, ◌==◌, if◌then◌else◌, length, drop,
}
use code_skeptic.Prelude.Text.{Text, codes}
use code_skeptic.Contracts.{Clause, ContractClause, ContractSyntaxIssue, ParsedContracts}
use code_skeptic.Contracts.Lexer.{is_space, drop_while, peek}
use code_skeptic.Contracts.Outcome.{Outcome, accepted, refused, unfinished, on_accepted}
use code_skeptic.Contracts.Parser.{is_prefix, trim_end, parse_clause_body}

-- The text before the terminator of a block comment.
unfoldable pub before_terminator : Text → Text
before_terminator [] = []
before_terminator (c ∷ cs) =
    let rest = before_terminator cs in if is_prefix (codes "*/") (c ∷ cs) then [] else c ∷ rest

unfoldable pub is_leader : ℕ → Bool
is_leader c = is_space c || (c == b'/' || c == b'*')

unfoldable pub strip_comment_line : Text → Text
strip_comment_line line = trim_end (before_terminator (drop_while is_leader line))

unfoldable pub is_machine : Text → Bool
is_machine body = is_prefix (codes "ai") body && (length body == 2 || peek is_space (drop 2 body))

-- The outcome of a stripped line that starts with "cs:". A throw leaves the whole function.
unfoldable pub add_clause :
    ℕ → Text → Text → Bool → Outcome Clause → ParsedContracts → Outcome ParsedContracts
add_clause n line body machine (accepted c) out =
    let parsed : ContractClause = record {
      clause = c;
      machine_proposed = machine;
      line = n;
      text = body;
    } in
    accepted (record out { clauses = out.clauses ++ parsed ∷ [] })
add_clause n line body machine refused out =
    let issue : ContractSyntaxIssue = record { line = n; text = line } in
    accepted (record out { syntax_errors = out.syntax_errors ++ issue ∷ [] })
add_clause n line body machine Outcome.raised out = Outcome.raised
add_clause n line body machine unfinished out = unfinished

unfoldable pub parse_contract_line : ℕ → Text → ParsedContracts → Outcome ParsedContracts
parse_contract_line n line out =
    let after = drop 3 line in
    let machine = is_machine after in
    let body = drop_while is_space (if machine then drop 2 after else after) in
    let added = add_clause n line body machine (parse_clause_body body) out in
    if is_prefix (codes "cs:") line then added else accepted out

-- The loop over the lines of a comment, with the number of the next line.
unfoldable pub parse_lines : ℕ → List Text → ParsedContracts → Outcome ParsedContracts
parse_lines n [] out = accepted out
parse_lines n (l ∷ ls) out =
    on_accepted (parse_contract_line n (strip_comment_line l) out) (parse_lines (n + 1) ls)

-- The line up to the first line break, and the others.
unfoldable pub add_char : ℕ → Text × List Text → Text × List Text
add_char c split = if c == 10 then ([], split.0 ∷ split.1) else (c ∷ split.0, split.1)

unfoldable pub split_lines : Text → Text × List Text
split_lines [] = ([], [])
split_lines (c ∷ cs) = add_char c (split_lines cs)

abbrev pub no_contracts : ParsedContracts
no_contracts = record { clauses = []; syntax_errors = [] }

unfoldable pub parse_contract_comment : Text → Outcome ParsedContracts
parse_contract_comment comment =
    parse_lines 1 ((split_lines comment).0 ∷ (split_lines comment).1) no_contracts
