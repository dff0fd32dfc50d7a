-- ===== src/Examples/Sidecars.antt =====
-- contracts/Sidecar.cpp at concrete files.
use code_skeptic.Prelude.{◌≡◌, refl, List, [], ◌∷◌, length, map}
use code_skeptic.Prelude.Text.{Text, codes}
use code_skeptic.Sidecar.{
  parse_sidecar_text, parse_sidecar_lines, add_line, is_comment_line, split_colon, cut, trim,
  is_blank, drop_blank_end, get_lines, drop_empty_last, add_entry, add_issue, SidecarText,
}
use code_skeptic.Sidecar.Lines.{entry_lines, parse_sidecar_text_counts}
use code_skeptic.Prelude.{◌+◌}
use code_skeptic.Contracts.Lexer.{drop_while, peek}
use code_skeptic.Contracts.Comments.{split_lines, add_char}

abbrev anchors : SidecarText → List Text
anchors out = map (λ e. e.anchor) out.entries

-- A comment, an entry, a line without an anchor.
sidecar_sample :
    anchors (parse_sidecar_text (codes "# a\n\nfind: requires p != null\n: owns(p)\n"))
    ≡ codes "find" ∷ []
unfolding parse_sidecar_text parse_sidecar_lines add_line is_comment_line split_colon cut trim
    is_blank drop_blank_end get_lines drop_empty_last add_entry add_issue drop_while peek
    split_lines add_char
sidecar_sample = refl

-- The first colon ends the anchor, also the colon of a qualified name.
qualified_anchor :
    anchors (parse_sidecar_text (codes "ns::find: requires p != null")) ≡ codes "ns" ∷ []
unfolding parse_sidecar_text parse_sidecar_lines add_line is_comment_line split_colon cut trim
    is_blank drop_blank_end get_lines drop_empty_last add_entry add_issue drop_while peek
    split_lines add_char
qualified_anchor = refl

abbrev sidecar_text : Text
sidecar_text = codes "# a\nfind: requires p != null\nfind\n"

parse_sidecar_text_counts_example :
    length (parse_sidecar_text sidecar_text).entries
      + length (parse_sidecar_text sidecar_text).issues
    ≡ entry_lines (get_lines sidecar_text)
parse_sidecar_text_counts_example = parse_sidecar_text_counts sidecar_text
