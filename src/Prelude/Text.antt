-- ===== src/Prelude/Text.antt =====
-- Strings as their bytes.
use Prim.Native.Char.{code}
use Prim.Native.String.{String}
use code_skeptic.Prelude.{
  ℕ, Bool, true, false, ◌&&◌, ◌||◌, List, [], ◌∷◌, ◌==◌, ltb, ◌≡◌, refl, arith,
}

abbrev pub Text : Type 0
Text = List ℕ

abbrev pub codes : String → Text
codes String.[] = []
codes (String.◌∷◌ c s) = code c ∷ codes s

unfoldable pub text_eq : Text → Text → Bool
text_eq [] [] = true
text_eq [] (d ∷ ds) = false
text_eq (c ∷ cs) [] = false
text_eq (c ∷ cs) (d ∷ ds) = c == d && text_eq cs ds

pub text_eq-path : (s t : Text) → text_eq s t ≡ true → s ≡ t
unfolding text_eq
text_eq-path [] [] h = refl
text_eq-path [] (d ∷ ds) h = cc
text_eq-path (c ∷ cs) [] h = cc
text_eq-path (c ∷ cs) (d ∷ ds) h = let rest = text_eq-path cs ds in ground arith

-- The order of `std::string`.
unfoldable pub text_less : Text → Text → Bool
text_less cs [] = false
text_less [] (d ∷ ds) = true
text_less (c ∷ cs) (d ∷ ds) = ltb c d || (c == d && text_less cs ds)
