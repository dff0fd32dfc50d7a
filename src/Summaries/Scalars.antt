-- ===== src/Summaries/Scalars.antt =====
-- engine/FunctionSummary.cpp: the columns of the summary file with one relation of the return value.
use code_skeptic.Prelude.{
  ℕ, ◌%◌, Bool, true, ◌&&◌, Option, none, some, [], ◌∷◌, ◌==◌, ltb, if◌then◌else◌, is_nil,
}
use code_skeptic.Prelude.Int.{ℤ, pos, negsuc, ◌-ℤ◌}
use code_skeptic.Prelude.Text.{Text, codes, text_eq}
use code_skeptic.Interval.Checked.{fits_int64}
use code_skeptic.Contracts.Lexer.{is_space, is_digit, drop_while, digits_value}
use code_skeptic.Baseline.{decimal}
use code_skeptic.SummaryDiff.{
  FunctionSummary, ReturnNullness, unknown_null, never_null, maybe_null, ReturnZeroness,
  unknown_zero, always_zero, never_zero, maybe_zero, ReturnOwnership, unknown_return, owned,
  borrowed_return, nullness_code, zeroness_code,
}
use code_skeptic.Summaries.{no_param}
use code_skeptic.Summaries.Columns.{bind_option}

unfoldable pub nullness_to_char : ReturnNullness → ℕ
nullness_to_char never_null = b'N'
nullness_to_char maybe_null = b'M'
nullness_to_char unknown_null = b'U'

unfoldable pub nullness_from_char : ℕ → Option ReturnNullness
nullness_from_char c =
    if c == b'U'
    then some unknown_null
    else if c == b'N'
    then some never_null
    else if c == b'M'
    then some maybe_null
    else none

unfoldable pub zeroness_to_char : ReturnZeroness → ℕ
zeroness_to_char always_zero = b'Z'
zeroness_to_char never_zero = b'N'
zeroness_to_char maybe_zero = b'M'
zeroness_to_char unknown_zero = b'U'

unfoldable pub zeroness_from_char : ℕ → Option ReturnZeroness
zeroness_from_char c =
    if c == b'U'
    then some unknown_zero
    else if c == b'Z'
    then some always_zero
    else if c == b'N'
    then some never_zero
    else if c == b'M'
    then some maybe_zero
    else none

unfoldable pub return_ownership_to_char : ReturnOwnership → ℕ
return_ownership_to_char owned = b'O'
return_ownership_to_char borrowed_return = b'B'
return_ownership_to_char unknown_return = b'U'

unfoldable pub return_ownership_from_char : ℕ → Option ReturnOwnership
return_ownership_from_char c =
    if c == b'U'
    then some unknown_return
    else if c == b'O'
    then some owned
    else if c == b'B'
    then some borrowed_return
    else none

-- A column of one character.
unfoldable pub parse_char : {A : Type 0} → (ℕ → Option A) → Text → Option A
parse_char from (c ∷ []) = from c
parse_char from _ = none

unfoldable pub all_digits : Text → Bool
all_digits [] = true
all_digits (c ∷ cs) = is_digit c && all_digits cs

-- `std::strtoll`, where it reads the whole text and stays in its range.
unfoldable pub read_digits : (ℕ → ℤ) → Text → Option ℤ
read_digits sign ds =
    let v = sign (digits_value 0 ds) in
    if is_nil ds then none else if all_digits ds && fits_int64 v then some v else none

unfoldable pub read_signed : Text → Option ℤ
read_signed [] = none
read_signed (c ∷ cs) =
    if c == b'-'
    then read_digits (λ n. pos 0 -ℤ pos n) cs
    else if c == b'+'
    then read_digits pos cs
    else read_digits pos (c ∷ cs)

-- Of an empty text it reads nothing, and the end is where the text ends.
unfoldable pub strtoll : Text → Option ℤ
strtoll [] = some (pos 0)
strtoll (c ∷ cs) = read_signed (drop_while is_space (c ∷ cs))

-- `static_cast<int>` of a number that is not negative.
unfoldable pub to_int : ℕ → ℤ
to_int n = let m = n % 4294967296 in if ltb m 2147483648 then pos m else pos m -ℤ pos 4294967296

unfoldable pub to_index : ℤ → Option ℤ
to_index (pos n) = some (to_int n)
to_index (negsuc n) = none

-- The index of a parameter, where the relation may be given.
unfoldable pub parse_index : Bool → Text → Option ℤ
parse_index allowed column =
    let read = bind_option (strtoll column) to_index in
    if text_eq column (codes "-") then some no_param else if allowed then read else none

unfoldable pub write_index : ℤ → Text
write_index (pos n) = decimal 10 n
write_index (negsuc n) = codes "-"

-- The columns 2, 4, 6 to 8 and 13 of a line of version 11.
pub record ScalarColumns : Type 0 where
  pub nullness : Text
  pub zeroness : Text
  pub zero_from : Text
  pub null_from : Text
  pub alias : Text
  pub ownership : Text

unfoldable pub write_scalars : FunctionSummary → ScalarColumns
write_scalars s = record {
  nullness = nullness_to_char s.return_nullness ∷ [];
  zeroness = zeroness_to_char s.return_zeroness ∷ [];
  zero_from = write_index s.zero_from_param;
  null_from = write_index s.null_from_param;
  alias = write_index s.return_alias_param;
  ownership = return_ownership_to_char s.return_ownership ∷ [];
}

-- The fields that these columns fill.
pub record Scalars : Type 0 where
  pub return_nullness : ReturnNullness
  pub return_zeroness : ReturnZeroness
  pub zero_from_param : ℤ
  pub null_from_param : ℤ
  pub return_alias_param : ℤ
  pub return_ownership : ReturnOwnership

unfoldable pub parse_scalars : ScalarColumns → Option Scalars
parse_scalars c = bind_option (parse_char nullness_from_char c.nullness) (λ nullness.
    bind_option (parse_char zeroness_from_char c.zeroness) (λ zeroness.
      bind_option (parse_index (zeroness_code zeroness == 0) c.zero_from) (λ zero_from.
        bind_option (parse_index (nullness_code nullness == 0) c.null_from) (λ null_from.
          bind_option (parse_index true c.alias) (λ alias.
            bind_option (parse_char return_ownership_from_char c.ownership) (λ ownership.
              let v : Scalars = record {
                return_nullness = nullness;
                return_zeroness = zeroness;
                zero_from_param = zero_from;
                null_from_param = null_from;
                return_alias_param = alias;
                return_ownership = ownership;
              } in
              some v))))))
