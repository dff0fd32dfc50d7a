-- ===== src/Baseline/Moved.antt =====
-- analyzer/Baseline.cpp: the key of a finding whose line moved or was indented anew.
use code_skeptic.Prelude.{ℕ, ◌≡◌, refl, sym, ap, ◌∙◌, true, List, [], ◌∷◌, ◌++◌, All}
use code_skeptic.Prelude.Text.{Text}
use code_skeptic.Baseline.{
  Diagnostic, is_space, drop_leading, drop_trailing, trimmed, fnv1a64_hex, source_line, joined,
  key_v2,
}

abbrev pub IsSpaces : Text → Type 0
IsSpaces s = All (λ (c : ℕ). is_space c ≡ true) s

drop_leading-spaces :
    (indent text : Text) → IsSpaces indent → drop_leading (indent ++ text) ≡ drop_leading text
unfolding drop_leading
drop_leading-spaces [] text h = refl
drop_leading-spaces (c ∷ cs) text h = rw (h.0) (drop_leading-spaces cs text h.1)

trimmed-spaces : (indent text : Text) → IsSpaces indent → trimmed (indent ++ text) ≡ trimmed text
unfolding trimmed
trimmed-spaces indent text h = ap drop_trailing (drop_leading-spaces indent text h)

-- A finding keeps its key when its line moves to another number and gets another indentation, if
-- the rest of the line, the rule, the file and the message stay.
pub key_v2-moved :
    (files_then files_now : Text → List Text) (d : Diagnostic) (line : ℕ)
    (old_indent new_indent text : Text)
    → IsSpaces old_indent
    → IsSpaces new_indent
    → source_line files_then d.file d.line ≡ old_indent ++ text
    → source_line files_now d.file line ≡ new_indent ++ text
    → key_v2 files_now (record d { line = line }) ≡ key_v2 files_then d
unfolding key_v2
key_v2-moved files_then files_now d line old_indent new_indent text old_h new_h old_line new_line =
    ap (λ (t : Text). joined d.rule_id d.file (fnv1a64_hex t) d.message)
      (ap trimmed new_line
        ∙ trimmed-spaces new_indent text new_h
        ∙ sym (trimmed-spaces old_indent text old_h)
        ∙ sym (ap trimmed old_line))
