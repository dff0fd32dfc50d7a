-- ===== src/Examples/Contracts.antt =====
-- contracts/ContractParser.cpp at concrete comments, and witnesses.
use code_skeptic.Prelude.{◌≡◌, refl, false, Option, some, List, [], ◌∷◌, length, ◌+◌}
use code_skeptic.Prelude.Int.{pos, negsuc, ◌-ℤ◌}
use code_skeptic.Prelude.Text.{Text, codes, text_eq}
use code_skeptic.Contracts.{
  Pred, ParsedContracts, return_value, param, int_lit, cmp, truth, negation, conjunction,
  disjunction, borrows, no_more, requires, ensures, ne, gt, ContractClause, ContractSyntaxIssue,
}
use code_skeptic.Contracts.Lexer.{
  Token, ident, int, l_paren, r_paren, and_and, compares, bad, tokens, lex, drop_while, take_while,
  is_space, is_digit, is_alpha, is_word_start, is_word, peek, digits_value, int_token, next_token,
}
use code_skeptic.Contracts.Outcome.{accepted, unfinished}
use code_skeptic.Contracts.Parser.{
  advance, operand_of, past, word_operand, parse_operand, compare_rest, close, all_of, any_of,
  parse_atom, fuel_for, starts_word, at_end, parse_requires, parse_guard, parse_ensures, is_prefix,
  trim_end, named_param, parse_owner, parse_tokens, parse_clause_body,
}
use code_skeptic.Contracts.Printer.{is_keyword, Named, NamedGuard, requires_tokens, ensures_tokens}
use code_skeptic.Contracts.Comments.{
  before_terminator, is_leader, strip_comment_line, is_machine, add_clause, parse_contract_line,
  parse_lines, add_char, split_lines, parse_contract_comment,
}
use code_skeptic.Contracts.Complete.{
  tagged_lines, comment_lines, parse_contract_comment_total, parse_contract_comment_counts,
}
use code_skeptic.Contracts.Clauses.{parse_tokens_roundtrip}
use code_skeptic.Contracts.Grammar.{ClauseRule}
use code_skeptic.Contracts.ClauseSound.{parse_tokens_sound}
use code_skeptic.Contracts.Outcome
use code_skeptic.Prelude.{◌≢◌}

abbrev sample : Text
sample = codes "/* cs: requires n > 0\n   prose\n   cs:ai owns p */"

abbrev sample_result : ParsedContracts
sample_result =
    let first : ContractClause = record {
      clause = requires (cmp (param (codes "n")) gt (int_lit (pos 0)));
      machine_proposed = false;
      line = 1;
      text = codes "requires n > 0";
    } in
    let issue : ContractSyntaxIssue = record { line = 3; text = codes "cs:ai owns p" } in
    record { clauses = first ∷ []; syntax_errors = issue ∷ [] }

tokens_sample :
    tokens (codes "a!=-12&&&")
    ≡ ident (codes "a") ∷ compares ne ∷ int (negsuc 11) ∷ and_and ∷ bad ∷ []
unfolding tokens lex drop_while take_while is_space is_digit is_alpha is_word_start is_word peek
    digits_value int_token next_token ◌-ℤ◌
tokens_sample = refl

-- A number that no `long long` holds ends the parser by an exception.
clause_out_of_range : parse_clause_body (codes "requires n > 9223372036854775808") ≡ Outcome.raised
unfolding tokens lex drop_while take_while is_space is_digit is_alpha is_word_start is_word peek
    digits_value int_token next_token ◌-ℤ◌ advance operand_of text_eq past word_operand
    parse_operand compare_rest close all_of any_of parse_atom fuel_for starts_word at_end
    parse_requires parse_guard parse_ensures is_prefix named_param parse_owner parse_tokens
    parse_clause_body
clause_out_of_range = refl

comment_sample : parse_contract_comment sample ≡ accepted sample_result
unfolding tokens lex drop_while take_while is_space is_digit is_alpha is_word_start is_word peek
    digits_value int_token next_token ◌-ℤ◌ advance operand_of text_eq past word_operand
    parse_operand compare_rest close all_of any_of parse_atom fuel_for starts_word at_end
    parse_requires parse_guard parse_ensures is_prefix named_param parse_owner parse_tokens
    parse_clause_body trim_end before_terminator is_leader strip_comment_line is_machine add_clause
    parse_contract_line parse_lines add_char split_lines parse_contract_comment
comment_sample = refl

-- Witnesses.
parse_contract_comment_total_example : parse_contract_comment sample ≢ unfinished
parse_contract_comment_total_example = parse_contract_comment_total sample

parse_contract_comment_counts_example :
    length sample_result.clauses + length sample_result.syntax_errors
    ≡ tagged_lines (comment_lines sample)
parse_contract_comment_counts_example =
    parse_contract_comment_counts sample sample_result comment_sample

-- (!(a) || return != 0) && flag, without a guard and with one.
abbrev sample_pred : Pred
sample_pred =
    conjunction
      (disjunction (negation (truth (param (codes "a")))) (cmp return_value ne (int_lit (pos 0)))
        no_more)
      (truth (param (codes "flag"))) no_more

abbrev sample_guard : Option Pred
sample_guard = some (truth (param (codes "g")))

sample_guard-Named : NamedGuard sample_guard
unfolding is_keyword text_eq
sample_guard-Named = refl

sample_pred-Named : Named sample_pred
unfolding is_keyword text_eq
sample_pred-Named = ((refl, ((tt, tt), tt)), (refl, tt))

parse_tokens_roundtrip_example :
    (parse_tokens [] (requires_tokens sample_pred) ≡ accepted (requires sample_pred))
    × (parse_tokens [] (ensures_tokens sample_pred sample_guard)
        ≡ accepted (ensures sample_pred sample_guard))
parse_tokens_roundtrip_example =
    parse_tokens_roundtrip [] sample_pred sample_guard sample_pred-Named sample_guard-Named

abbrev owner_tokens : List Token
owner_tokens = ident (codes "borrows") ∷ l_paren ∷ ident (codes "p") ∷ r_paren ∷ []

parse_tokens_owner : parse_tokens (codes "borrows(p)") owner_tokens ≡ accepted (borrows (codes "p"))
unfolding parse_tokens starts_word text_eq advance parse_owner named_param at_end is_prefix
parse_tokens_owner = refl

parse_tokens_sound_example : ClauseRule (codes "borrows(p)") (borrows (codes "p")) owner_tokens
parse_tokens_sound_example =
    parse_tokens_sound (codes "borrows(p)") owner_tokens (borrows (codes "p")) parse_tokens_owner
