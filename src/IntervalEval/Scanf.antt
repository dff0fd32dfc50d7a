-- ===== src/IntervalEval/Scanf.antt =====
-- engine/IntervalEval.cpp: the conversions of a scanf format, and the bound that a field width sets.
use code_skeptic.Prelude.{
  ℕ, zero, suc, ◌+◌, ◌-◌, ◌*◌, ◌/◌, Bool, true, false, ◌&&◌, ◌||◌, Option, none, some, List, [],
  ◌∷◌, ltb, leb, ◌==◌, if◌then◌else◌,
}
use code_skeptic.Prelude.Int.{pos, ◌-ℤ◌}
use code_skeptic.Interval.{Interval, range, at_least, meet}

-- The characters by their codes.
abbrev pub percent : ℕ
percent = 37

abbrev pub star : ℕ
star = 42

abbrev pub is_digit : ℕ → Bool
is_digit c = leb 48 c && leb c 57

-- h l j z t L q
abbrev pub is_modifier : ℕ → Bool
is_modifier c = c == 104 || c == 108 || c == 106 || c == 122 || c == 116 || c == 76 || c == 113

pub record ScanfConv : Type 0 where
  pub suppressed : Bool
  pub width : ℕ
  pub conv : ℕ

abbrev pub clamp : ℕ → ℕ
clamp n = if ltb 1000000 n then 1000000 else n

-- The loop over the digits of the width: the width, and what is left.
unfoldable pub read_width : ℕ → List ℕ → ℕ × List ℕ
read_width w [] = (w, [])
read_width w (c ∷ cs) =
    let more = read_width (clamp (w * 10 + (c - 48))) cs in if is_digit c then more else (w, c ∷ cs)

unfoldable pub skip_modifiers : List ℕ → List ℕ
skip_modifiers [] = []
skip_modifiers (c ∷ cs) = let more = skip_modifiers cs in if is_modifier c then more else c ∷ cs

-- What follows the closing bracket.
unfoldable pub skip_to_bracket : List ℕ → Option (List ℕ)
skip_to_bracket [] = none
skip_to_bracket (c ∷ cs) = let more = skip_to_bracket cs in if c == 93 then some cs else more

abbrev pub skip_one : ℕ → List ℕ → List ℕ
skip_one c [] = []
skip_one c (d ∷ ds) = if d == c then ds else d ∷ ds

-- A scanset after its `[`; a leading `^` and a leading `]` belong to it.
unfoldable pub skip_scanset : List ℕ → Option (List ℕ)
unfolding skip_to_bracket
skip_scanset cs = skip_to_bracket (skip_one 93 (skip_one 94 cs))

-- A conversion from its conversion character on.
unfoldable pub read_conv : Bool → ℕ → List ℕ → Option (ScanfConv × List ℕ)
read_conv suppressed width [] = none
read_conv suppressed width (c ∷ cs) =
    let parsed : ScanfConv = record { suppressed = suppressed; width = width; conv = c } in
    if c == 91
    then elim (skip_scanset cs) [ none ↦ none | some rest ↦ some (parsed, rest) ]
    else some (parsed, cs)

unfoldable pub read_spec : Bool → List ℕ → Option (ScanfConv × List ℕ)
read_spec suppressed [] = none
read_spec suppressed (c ∷ cs) =
    let (width, rest) = read_width 0 (c ∷ cs) in read_conv suppressed width (skip_modifiers rest)

-- A conversion from its first character after `*` on, if there is one.
unfoldable pub read_flag : List ℕ → Option (ScanfConv × List ℕ)
read_flag [] = none
read_flag (c ∷ cs) = if c == star then read_spec true cs else read_spec false (c ∷ cs)

-- `parseScanfFormat`, on fuel; a malformed format is `none`.
unfoldable pub parse_scanf_format : ℕ → List ℕ → Option (List ScanfConv)
parse_scanf_format zero cs = none
parse_scanf_format (suc fuel) [] = some []
parse_scanf_format (suc fuel) (c ∷ cs) = elim (c == percent) [
  | false ↦ parse_scanf_format fuel cs
  | true ↦ elim cs [
    | [] ↦ none
    | d ∷ ds ↦ elim (d == percent) [
      | true ↦ parse_scanf_format fuel ds
      | false ↦ elim (read_flag (d ∷ ds)) [
        | none ↦ none
        | some r ↦ elim (parse_scanf_format fuel r.1) [
          | none ↦ none
          | some convs ↦ some (r.0 ∷ convs)
        ]
      ]
    ]
  ]
]

-- The loop of `powCapped`: `r` times `base`, `n` more times.
unfoldable pub pow_capped_from : ℕ → ℕ → ℕ → Option ℕ
pow_capped_from base r zero = some r
pow_capped_from base r (suc n) =
    let more = pow_capped_from base (r * base) n in
    if ltb (9223372036854775807 / base) r then none else more

unfoldable pub pow_capped : ℕ → ℕ → Option ℕ
pow_capped base exp = pow_capped_from base 1 exp

-- [-(m - 1), n - 1], or no bound.
abbrev pub signed_bound : Option ℕ → Option ℕ → Option Interval
signed_bound (some m) (some n) = some (range (pos 0 -ℤ (pos m -ℤ pos 1)) (pos n -ℤ pos 1))
signed_bound _ _ = none

abbrev pub unsigned_bound : Option ℕ → Option Interval
unsigned_bound none = none
unsigned_bound (some n) = some (range (pos 0) (pos n -ℤ pos 1))

-- `scanfWidthBound`: d is 100, u 117, x 120, X 88, o 111, i 105.
unfoldable pub scanf_width_bound : ScanfConv → Option Interval
scanf_width_bound c =
    if c.width == 0
    then none
    else if c.conv == 100
    then signed_bound (pow_capped 10 (c.width - 1)) (pow_capped 10 c.width)
    else if c.conv == 117
    then unsigned_bound (pow_capped 10 c.width)
    else if c.conv == 120 || c.conv == 88
    then unsigned_bound (pow_capped 16 c.width)
    else if c.conv == 111
    then unsigned_bound (pow_capped 8 c.width)
    else if c.conv == 105
    then signed_bound (pow_capped 16 (c.width - 1)) (pow_capped 16 c.width)
    else none

-- n is 110.
unfoldable pub is_numeric_scanf_conv : ℕ → Bool
is_numeric_scanf_conv c =
    c == 100 || c == 105 || c == 117 || c == 111 || c == 120 || c == 88 || c == 110

-- The interval that a numeric conversion gives a variable of the type.
unfoldable pub seed_within : ScanfConv → Interval → Interval
seed_within c type_range =
    if c.conv == 110
    then meet type_range (at_least (pos 0))
    else elim (scanf_width_bound c) [ none ↦ type_range | some bound ↦ meet type_range bound ]
