-- ===== src/Sidecar.antt =====
-- contracts/Sidecar.cpp: the text of a sidecar file, and the contracts of a function in it. The cache
-- of files is the text itself, and what Clang says of a function are its names and its parameters.
pub mod Lines
use code_skeptic.Prelude.{
  ℕ, zero, suc, ◌+◌, Bool, true, false, ◌&&◌, ◌||◌, Option, none, some, List, [], ◌∷◌, ◌++◌, ◌==◌,
  if◌then◌else◌, is_nil, map,
}
use code_skeptic.Prelude.Text.{Text, codes, text_eq, text_less}
use code_skeptic.Baseline.{decimal}
use code_skeptic.Contracts.{ContractClause, ContractSyntaxIssue, ParsedContracts}
use code_skeptic.Contracts.Lexer.{drop_while, peek}
use code_skeptic.Contracts.Outcome.{Outcome, on_accepted, accepted}
use code_skeptic.Contracts.Comments.{split_lines, parse_contract_comment, no_contracts}

pub record SidecarEntry : Type 0 where
  pub line : ℕ
  pub anchor : Text
  pub clause : Text

pub record SidecarText : Type 0 where
  pub entries : List SidecarEntry
  pub issues : List ContractSyntaxIssue

unfoldable pub is_blank : ℕ → Bool
is_blank c = c == 32 || (c == 9 || c == 13)

unfoldable pub drop_blank_end : Text → Text
drop_blank_end [] = []
drop_blank_end (c ∷ cs) =
    let rest = drop_blank_end cs in if is_nil rest && is_blank c then [] else c ∷ rest

unfoldable pub trim : Text → Text
trim t = drop_blank_end (drop_while is_blank t)

unfoldable pub cut : ℕ → Option (Text × Text) → Option (Text × Text)
cut c none = none
cut c (some parts) = some (c ∷ parts.0, parts.1)

-- What is before the first colon and what is after it.
unfoldable pub split_colon : Text → Option (Text × Text)
split_colon [] = none
split_colon (c ∷ cs) =
    let rest = cut c (split_colon cs) in if c == b':' then some ([], cs) else rest

-- `std::getline`: no line follows the last line break.
unfoldable pub drop_empty_last : List Text → List Text
drop_empty_last [] = []
drop_empty_last (l ∷ []) = if is_nil l then [] else l ∷ []
drop_empty_last (l ∷ m ∷ ls) = l ∷ drop_empty_last (m ∷ ls)

unfoldable pub get_lines : Text → List Text
get_lines t = drop_empty_last ((split_lines t).0 ∷ (split_lines t).1)

unfoldable pub add_issue : ℕ → Text → SidecarText → SidecarText
add_issue n line out =
    let issue : ContractSyntaxIssue = record { line = n; text = line } in
    record out { issues = out.issues ++ issue ∷ [] }

unfoldable pub add_entry : ℕ → Text → Option (Text × Text) → SidecarText → SidecarText
add_entry n line none out = add_issue n line out
add_entry n line (some parts) out =
    let entry : SidecarEntry = record { line = n; anchor = trim parts.0; clause = trim parts.1 } in
    if is_nil parts.0 || is_nil (trim parts.1)
    then add_issue n line out
    else record out { entries = out.entries ++ entry ∷ [] }

-- A blank line, or a comment.
unfoldable pub is_comment_line : Text → Bool
is_comment_line line = is_nil line || peek (λ c. c == b'#') line

unfoldable pub add_line : ℕ → Text → SidecarText → SidecarText
add_line n line out = if is_comment_line line then out else add_entry n line (split_colon line) out

unfoldable pub parse_sidecar_lines : ℕ → List Text → SidecarText → SidecarText
parse_sidecar_lines n [] out = out
parse_sidecar_lines n (raw ∷ ls) out = parse_sidecar_lines (n + 1) ls (add_line n (trim raw) out)

unfoldable pub parse_sidecar_text : Text → SidecarText
parse_sidecar_text t = parse_sidecar_lines 1 (get_lines t) (record { entries = []; issues = [] })

-- `std::set::insert`.
unfoldable pub insert_name : Text → List Text → List Text
insert_name n [] = n ∷ []
insert_name n (m ∷ ms) =
    let rest = insert_name n ms in
    if text_eq n m then m ∷ ms else if text_less n m then n ∷ m ∷ ms else m ∷ rest

-- The names under which a function is looked for, from its qualified and its plain name.
unfoldable pub candidates : Text → Text → ℕ → List Text
candidates qual plain params =
    let arity = codes "/" ++ decimal 10 params in
    insert_name (plain ++ arity)
      (insert_name (qual ++ arity) (insert_name plain (insert_name qual [])))

unfoldable pub clause_at : ℕ → ContractClause → ContractClause
clause_at n c = record c { line = n }

unfoldable pub issue_at : ℕ → ContractSyntaxIssue → ContractSyntaxIssue
issue_at n i = record i { line = n }

unfoldable pub add_parsed : SidecarEntry → ParsedContracts → ParsedContracts → ParsedContracts
add_parsed e out one = record {
  clauses = out.clauses ++ map (clause_at e.line) one.clauses;
  syntax_errors = out.syntax_errors ++ map (issue_at e.line) one.syntax_errors;
}

-- An entry, if its anchor is the name.
unfoldable pub add_if_anchored : Text → SidecarEntry → ParsedContracts → Outcome ParsedContracts
add_if_anchored name e out =
    let parsed = parse_contract_comment (codes "// cs: " ++ e.clause ++ 10 ∷ []) in
    let added = on_accepted parsed (λ one. accepted (add_parsed e out one)) in
    if text_eq e.anchor name then added else accepted out

-- The entries of one anchor, in the order of the file.
unfoldable pub add_anchor : Text → List SidecarEntry → ParsedContracts → Outcome ParsedContracts
add_anchor name [] out = accepted out
add_anchor name (e ∷ es) out = on_accepted (add_if_anchored name e out) (add_anchor name es)

unfoldable pub add_anchors :
    List Text → List SidecarEntry → ParsedContracts → Outcome ParsedContracts
add_anchors [] es out = accepted out
add_anchors (n ∷ ns) es out = on_accepted (add_anchor n es out) (add_anchors ns es)

-- `sidecarContractsForDecl`, with the text of the sidecar file if there is one.
unfoldable pub sidecar_contracts : Option Text → Text → Text → ℕ → Outcome ParsedContracts
sidecar_contracts none qual plain params = accepted no_contracts
sidecar_contracts (some t) qual plain params =
    add_anchors (candidates qual plain params) (parse_sidecar_text t).entries no_contracts
