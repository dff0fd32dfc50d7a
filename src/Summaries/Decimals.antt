-- ===== src/Summaries/Decimals.antt =====
-- engine/FunctionSummary.cpp: a decimal number is read back by `std::strtoll`.
use code_skeptic.Prelude.{
  ℕ, zero, suc, ◌+◌, ◌*◌, ◌-◌, ◌/◌, ◌%◌, ◌<◌, ◌≡◌, refl, ap, sym, ◌∙◌, true, false, some, [], ◌∷◌,
  ◌++◌, ◌==◌, ltb, if◌then◌else◌, is_nil, arith, List-cases, ◌≢◌, Bool-cases, inl, inr,
}
use code_skeptic.Prelude.Int.{pos}
use code_skeptic.Prelude.Text.{Text, codes, text_eq}
use code_skeptic.Interval.Checked.{fits_int64}
use code_skeptic.Contracts.Lexer.{is_space, is_digit, drop_while, digits_value}
use code_skeptic.Baseline.{decimal}
use code_skeptic.Summaries.Scalars.{all_digits, read_digits, read_signed, strtoll}

abbrev power_of_ten : ℕ → ℕ
power_of_ten zero = 1
power_of_ten (suc f) = 10 * power_of_ten f

digits_value-append :
    (acc : ℕ) (ds : Text) (d : ℕ)
    → digits_value acc (ds ++ d ∷ []) ≡ digits_value acc ds * 10 + (d - 48)
unfolding digits_value
digits_value-append acc [] d = refl
digits_value-append acc (e ∷ ds) d = digits_value-append (acc * 10 + (e - 48)) ds d

digits_value-decimal : (f n : ℕ) → n < power_of_ten f → digits_value 0 (decimal f n) ≡ n
unfolding decimal digits_value
digits_value-decimal zero n h = omega arith
digits_value-decimal (suc f) n h = elim (Bool-cases (ltb n 10)) [
  | inl last ↦ rw last (ground arith)
  | inr more ↦
      let leading = digits_value-decimal f (n / 10) (omega arith) in
      let end = digits_value-append 0 (decimal f (n / 10)) (48 + n % 10) in rw more (ground arith)
]

all_digits-append :
    (ds : Text) (d : ℕ)
    → all_digits ds ≡ true
    → is_digit d ≡ true
    → all_digits (ds ++ d ∷ []) ≡ true
unfolding all_digits
all_digits-append [] d h k = ground arith
all_digits-append (e ∷ ds) d h k = let rest = all_digits-append ds d in ground arith

all_digits-decimal : (f n : ℕ) → all_digits (decimal f n) ≡ true
unfolding decimal all_digits is_digit
all_digits-decimal zero n = refl
all_digits-decimal (suc f) n =
    let leading = all_digits-decimal f (n / 10) in
    let is_last : is_digit (48 + n % 10) ≡ true = ground arith in
    elim (Bool-cases (ltb n 10)) [
      | inl last ↦ rw last (ground arith)
      | inr more ↦ rw more (all_digits-append (decimal f (n / 10)) (48 + n % 10) leading is_last)
    ]

append-nonempty : (ds : Text) (d : ℕ) → is_nil (ds ++ d ∷ []) ≡ false
append-nonempty [] d = refl
append-nonempty (e ∷ ds) d = refl

ne_nil : (t : Text) → is_nil t ≡ false → t ≢ []
ne_nil [] h e = cc
ne_nil (c ∷ cs) h e = cc

digit_head : (c : ℕ) (cs : Text) → all_digits (c ∷ cs) ≡ true → is_digit c ≡ true
unfolding all_digits
digit_head c cs h = ground arith

digit-no_space : (c : ℕ) → is_digit c ≡ true → is_space c ≡ false
unfolding is_digit is_space
digit-no_space c h = ground arith

nil_dash : text_eq [] (codes "-") ≡ false
unfolding text_eq
nil_dash = refl

digits_dash : (c : ℕ) (cs : Text) → is_digit c ≡ true → text_eq (c ∷ cs) (codes "-") ≡ false
unfolding is_digit text_eq
digits_dash c cs h = ground arith

read_signed-digits :
    (c : ℕ) (cs : Text)
    → all_digits (c ∷ cs) ≡ true
    → is_digit c ≡ true
    → fits_int64 (pos (digits_value 0 (c ∷ cs))) ≡ true
    → read_signed (c ∷ cs) ≡ some (pos (digits_value 0 (c ∷ cs)))
unfolding read_signed read_digits is_digit
read_signed-digits c cs h d k =
    let no_minus : (c == b'-') ≡ false = ground arith in
    let no_plus : (c == b'+') ≡ false = ground arith in rw no_minus (rw no_plus (rw h (rw k refl)))

decimal-nonempty : (f n : ℕ) → is_nil (decimal (suc f) n) ≡ false
unfolding decimal
decimal-nonempty f n = append-nonempty (if ltb n 10 then [] else decimal f (n / 10)) (48 + n % 10)

strtoll-digits :
    (c : ℕ) (cs : Text)
    → all_digits (c ∷ cs) ≡ true
    → fits_int64 (pos (digits_value 0 (c ∷ cs))) ≡ true
    → strtoll (c ∷ cs) ≡ some (pos (digits_value 0 (c ∷ cs)))
unfolding strtoll drop_while
strtoll-digits c cs h k =
    let digit : is_digit c ≡ true = digit_head c cs h in
    let no_space : is_space c ≡ false = digit-no_space c digit in
    rw (no_space, drop_while) (read_signed-digits c cs h digit k)

pub strtoll-decimal : (n : ℕ) → n < 2147483648 → strtoll (decimal 10 n) ≡ some (pos n)
strtoll-decimal n h =
    let value = digits_value-decimal 10 n (omega arith) in
    let digits = all_digits-decimal 10 n in
    elim (List-cases (decimal 10 n)) [
      | inl e ↦ absurd (ne_nil (decimal 10 n) (decimal-nonempty 9 n) e)
      | inr (c, cs, e) ↦
          let same : digits_value 0 (c ∷ cs) ≡ n = ap (digits_value 0) (sym e) ∙ value in
          let good : all_digits (c ∷ cs) ≡ true = ap all_digits (sym e) ∙ digits in
          let small : fits_int64 (pos (digits_value 0 (c ∷ cs))) ≡ true = ground arith in
          ap strtoll e ∙ (strtoll-digits c cs good small ∙ ap (λ m. some (pos m)) same)
    ]

pub decimal-no_dash : (n : ℕ) → text_eq (decimal 10 n) (codes "-") ≡ false
decimal-no_dash n =
    let digits = all_digits-decimal 10 n in
    elim (List-cases (decimal 10 n)) [
      | inl e ↦ rw e (nil_dash)
      | inr (c, cs, e) ↦
          let good : all_digits (c ∷ cs) ≡ true = ap all_digits (sym e) ∙ digits in
          rw e (digits_dash c cs (digit_head c cs good))
    ]
