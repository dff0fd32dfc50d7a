-- ===== src/Sidecar/Lines.antt =====
-- contracts/Sidecar.cpp: no line of a sidecar file is passed over in silence.
use code_skeptic.Prelude.{
  ℕ, suc, ◌+◌, ◌≡◌, ◌||◌, Option, none, some, List, [], ◌∷◌, if◌then◌else◌, length, length-append,
  is_nil, arith, Bool-cases, inl, inr,
}
use code_skeptic.Prelude.Text.{Text}
use code_skeptic.Sidecar.{
  SidecarText, trim, add_issue, add_entry, is_comment_line, add_line, split_colon,
  parse_sidecar_lines, parse_sidecar_text, get_lines,
}

-- The lines that are neither blank nor comments.
unfoldable pub entry_lines : List Text → ℕ
entry_lines [] = 0
entry_lines (l ∷ ls) =
    let rest = entry_lines ls in if is_comment_line (trim l) then rest else suc rest

abbrev sidecar_count : SidecarText → ℕ
sidecar_count out = length out.entries + length out.issues

add_issue-count :
    (n : ℕ) (line : Text) (out : SidecarText)
    → sidecar_count (add_issue n line out) ≡ sidecar_count out + 1
unfolding add_issue
add_issue-count n line out = omega (arith, length-append out.issues)

add_entry-count :
    (n : ℕ) (line : Text) (parts : Option (Text × Text)) (out : SidecarText)
    → sidecar_count (add_entry n line parts out) ≡ sidecar_count out + 1
unfolding add_entry
add_entry-count n line none out = add_issue-count n line out
add_entry-count n line (some parts) out =
    elim (Bool-cases (is_nil parts.0 || is_nil (trim parts.1))) [
      | inl bad ↦ rw bad (add_issue-count n line out)
      | inr good ↦ rw good (omega (arith, length-append out.entries))
    ]

add_line-count :
    (n : ℕ) (line : Text) (out : SidecarText)
    → sidecar_count (add_line n line out)
      ≡ sidecar_count out + (if is_comment_line line then 0 else 1)
unfolding add_line
add_line-count n line out = elim (Bool-cases (is_comment_line line)) [
  | inl skipped ↦ rw skipped (omega arith)
  | inr kept ↦ rw kept (add_entry-count n line (split_colon line) out)
]

parse_sidecar_lines-count :
    (n : ℕ) (ls : List Text) (out : SidecarText)
    → sidecar_count (parse_sidecar_lines n ls out) ≡ sidecar_count out + entry_lines ls
unfolding parse_sidecar_lines entry_lines
parse_sidecar_lines-count n [] out = omega arith
parse_sidecar_lines-count n (raw ∷ ls) out =
    let added = add_line-count n (trim raw) out in
    let later = parse_sidecar_lines-count (n + 1) ls (add_line n (trim raw) out) in ground arith

-- Each line of a sidecar file that is neither blank nor a comment becomes one entry or one issue, and
-- no other line does.
pub parse_sidecar_text_counts :
    (t : Text)
    → length (parse_sidecar_text t).entries + length (parse_sidecar_text t).issues
      ≡ entry_lines (get_lines t)
unfolding parse_sidecar_text
parse_sidecar_text_counts t = omega (arith, parse_sidecar_lines-count 1 (get_lines t))
