-- ===== src/Contracts/Lexer.antt =====
-- contracts/ContractParser.cpp: the class Lexer.
use code_skeptic.Prelude.{
  ℕ, zero, suc, ◌+◌, ◌-◌, ◌*◌, Bool, false, ◌&&◌, ◌||◌, List, [], ◌∷◌, ◌==◌, leb, if◌then◌else◌,
  length, drop,
}
use code_skeptic.Prelude.Int.{ℤ, pos, ◌-ℤ◌}
use code_skeptic.Prelude.Text.{Text}
use code_skeptic.Interval.Checked.{fits_int64}
use code_skeptic.Contracts.{CmpOp, eq, ne, lt, le, gt, ge}

-- `raised` is the token at which `std::stoll` throws. The end of the input is the end of the list.
pub data Token : Type 0 where
  ident : Text → Token
  int : ℤ → Token
  l_paren r_paren and_and or_or bang bad raised : Token
  compares : CmpOp → Token

-- `std::isspace` and its kin, in the C locale.
unfoldable pub is_space : ℕ → Bool
is_space c = c == b' ' || (leb 9 c && leb c 13)

unfoldable pub is_digit : ℕ → Bool
is_digit c = leb b'0' c && leb c b'9'

unfoldable pub is_alpha : ℕ → Bool
is_alpha c = (leb b'a' c && leb c b'z') || (leb b'A' c && leb c b'Z')

unfoldable pub is_word_start : ℕ → Bool
is_word_start c = is_alpha c || c == b'_'

unfoldable pub is_word : ℕ → Bool
is_word c = is_alpha c || (is_digit c || c == b'_')

unfoldable pub take_while : (ℕ → Bool) → Text → Text
take_while p [] = []
take_while p (c ∷ cs) = let rest = take_while p cs in if p c then c ∷ rest else []

unfoldable pub drop_while : (ℕ → Bool) → Text → Text
drop_while p [] = []
drop_while p (c ∷ cs) = let rest = drop_while p cs in if p c then rest else c ∷ cs

-- Whether the next character passes the test.
unfoldable pub peek : (ℕ → Bool) → Text → Bool
peek p [] = false
peek p (c ∷ cs) = p c

unfoldable pub digits_value : ℕ → Text → ℕ
digits_value acc [] = acc
digits_value acc (c ∷ cs) = digits_value (acc * 10 + (c - b'0')) cs

-- `std::stoll`, out of its range.
unfoldable pub int_token : ℤ → Token
int_token v = if fits_int64 v then int v else raised

abbrev pub either_op : Bool → Token → Token → Text → Token × Text
either_op longer two one cs = if longer then (two, drop 1 cs) else (one, cs)

-- `Lexer::next` at a character that is no space: the token and what follows it.
unfoldable pub next_token : ℕ → Text → Token × Text
next_token c cs =
    let equals_follows = peek (λ d. d == b'=') cs in
    if c == b'('
    then (l_paren, cs)
    else if c == b')'
    then (r_paren, cs)
    else if c == b'&' && peek (λ d. d == b'&') cs
    then (and_and, drop 1 cs)
    else if c == b'|' && peek (λ d. d == b'|') cs
    then (or_or, drop 1 cs)
    else if c == b'!'
    then either_op equals_follows (compares ne) bang cs
    else if c == b'='
    then either_op equals_follows (compares eq) bad cs
    else if c == b'<'
    then either_op equals_follows (compares le) (compares lt) cs
    else if c == b'>'
    then either_op equals_follows (compares ge) (compares gt) cs
    else if is_digit c
    then (int_token (pos (digits_value 0 (take_while is_digit (c ∷ cs)))), drop_while is_digit cs)
    else if c == b'-' && peek is_digit cs
    then (
      int_token (pos 0 -ℤ pos (digits_value 0 (take_while is_digit cs))),
      drop_while is_digit cs,
    )
    else if is_word_start c
    then (ident (take_while is_word (c ∷ cs)), drop_while is_word cs)
    else (bad, cs)

-- The tokens of a text, on fuel.
unfoldable pub lex : ℕ → Text → List Token
lex zero t = []
lex (suc f) t = elim (drop_while is_space t) [
  | [] ↦ []
  | c ∷ cs ↦ (next_token c cs).0 ∷ lex f (next_token c cs).1
]

unfoldable pub tokens : Text → List Token
tokens t = lex (length t + 1) t
