-- ===== src/Contracts/LexFuel.antt =====
-- contracts/ContractParser.cpp: the fuel of the lexer is enough.
use code_skeptic.Prelude.{
  ℕ, zero, suc, ◌≤◌, ◌<◌, ◌≡◌, refl, Bool, true, false, List, [], ◌∷◌, List-cases, ap, length, drop,
  arith, Bool-cases, inl, inr, ◌==◌,
}
use code_skeptic.Prelude.Text.{Text}
use code_skeptic.Contracts.{ne, eq, le, lt, ge, gt}
use code_skeptic.Contracts.Lexer.{
  Token, bang, bad, compares, drop_while, is_word, is_space, next_token, either_op, lex, peek,
  is_digit,
}

length-drop : {A : Type 0} (n : ℕ) (xs : List A) → length (drop n xs) ≤ length xs
length-drop zero xs = omega arith
length-drop (suc n) [] = omega arith
length-drop (suc n) (x ∷ xs) = let rest = length-drop n xs in omega arith

length-drop_while : (p : ℕ → Bool) (t : Text) → length (drop_while p t) ≤ length t
unfolding drop_while
length-drop_while p [] = omega arith
length-drop_while p (c ∷ cs) =
    let rest = length-drop_while p cs in
    elim (Bool-cases (p c)) [ inl e ↦ rw e (omega arith) | inr e ↦ rw e (omega arith) ]

length-either_op : (b : Bool) (x y : Token) (cs : Text) → length (either_op b x y cs).1 ≤ length cs
length-either_op true x y cs = length-drop 1 cs
length-either_op false x y cs = omega arith

abbrev Keeps : Text → Token × Text → Type 0
Keeps cs r = length r.1 ≤ length cs

length-next_token : (c : ℕ) (cs : Text) → Keeps cs (next_token c cs)
unfolding next_token
length-next_token c cs =
    let one = length-drop 1 cs in
    let digits = length-drop_while is_digit cs in
    let word = length-drop_while is_word cs in
    let longer = length-either_op (peek (λ d. d == b'=') cs) in
    let not_equal = longer (compares ne) bang cs in
    let equal = longer (compares eq) bad cs in
    let less = longer (compares le) (compares lt) cs in
    let greater = longer (compares ge) (compares gt) cs in ground arith

pub lex-fuel : (f g : ℕ) (t : Text) → length t < f → length t < g → lex f t ≡ lex g t
unfolding lex
lex-fuel zero g t h k = absurd (omega arith)
lex-fuel (suc f) zero t h k = absurd (omega arith)
lex-fuel (suc f) (suc g) t h k =
    let shorter = length-drop_while is_space t in
    elim (List-cases (drop_while is_space t)) [
      | inl e ↦ rw (e, lex) refl
      | inr (c, cs, e) ↦
          let rest = length-next_token c cs in
          let shorter' = ap length e in
          let later = lex-fuel f g (next_token c cs).1 (omega arith) (omega arith) in
          rw (e, lex) (ap (λ ts. (next_token c cs).0 ∷ ts) later)
    ]
