-- ===== src/Baseline.antt =====
-- analyzer/Baseline.cpp: the keys of findings, the baseline file and the filter. A file is its lines: no
-- line holds a line break.
pub mod Keys
pub mod Budget
pub mod Filter
pub mod Moved
use code_skeptic.Prelude.{
  ℕ, zero, suc, ◌+◌, ◌-◌, ◌*◌, ◌/◌, ◌%◌, ◌^◌, Bool, true, false, ◌&&◌, ◌||◌, Option, none, some,
  List, [], ◌∷◌, ◌++◌, map, ◌==◌, ltb, if◌then◌else◌, length, is_nil, get_elem?,
}
use code_skeptic.Prelude.Text.{Text, text_eq, text_less}

pub record Diagnostic : Type 0 where
  pub rule_id : Text
  pub file : Text
  pub line : ℕ
  pub message : Text

unfoldable pub is_space : ℕ → Bool
is_space c = c == 32 || (c == 9 || (c == 13 || c == 10))

unfoldable pub drop_leading : Text → Text
drop_leading [] = []
drop_leading (c ∷ cs) = let rest = drop_leading cs in if is_space c then rest else c ∷ cs

unfoldable pub drop_trailing : Text → Text
drop_trailing [] = []
drop_trailing (c ∷ cs) =
    let rest = drop_trailing cs in if is_nil rest && is_space c then [] else c ∷ rest

unfoldable pub trimmed : Text → Text
trimmed s = drop_trailing (drop_leading s)

-- `h ^= c` on the low `bits` bits.
unfoldable pub xor_low : ℕ → ℕ → ℕ → ℕ
xor_low zero h c = h
xor_low (suc bits) h c = (h % 2 + c % 2) % 2 + 2 * xor_low bits (h / 2) (c / 2)

unfoldable pub fnv1a64 : ℕ → Text → ℕ
fnv1a64 h [] = h
fnv1a64 h (c ∷ cs) = fnv1a64 ((xor_low 8 h c * 1099511628211) % 2 ^ 64) cs

unfoldable pub hex_digit : ℕ → ℕ
hex_digit n = if ltb n 10 then 48 + n else 87 + n

unfoldable pub hex : ℕ → ℕ → Text
hex zero n = []
hex (suc digits) n = hex digits (n / 16) ++ (hex_digit (n % 16) ∷ [])

unfoldable pub fnv1a64_hex : Text → Text
fnv1a64_hex s = hex 16 (fnv1a64 1469598103934665603 s)

-- `std::to_string` of an unsigned: at most ten digits.
unfoldable pub decimal : ℕ → ℕ → Text
decimal zero n = []
decimal (suc digits) n =
    let leading = decimal digits (n / 10) in
    (if ltb n 10 then [] else leading) ++ ((48 + n % 10) ∷ [])

unfoldable pub text_or_empty : Option Text → Text
text_or_empty none = []
text_or_empty (some t) = t

unfoldable pub source_line : (Text → List Text) → Text → ℕ → Text
source_line files file line =
    if line == 0 || ltb (length (files file)) line
    then []
    else text_or_empty (get_elem? (files file) (line - 1))

-- The parts of a key with a bar between them.
unfoldable pub joined : Text → Text → Text → Text → Text
joined a b c d = a ++ (124 ∷ b ++ (124 ∷ c ++ (124 ∷ d)))

unfoldable pub key_v1 : Diagnostic → Text
key_v1 d = joined d.rule_id d.file (decimal 10 d.line) d.message

unfoldable pub key_v2 : (Text → List Text) → Diagnostic → Text
key_v2 files d =
    joined d.rule_id d.file (fnv1a64_hex (trimmed (source_line files d.file d.line))) d.message

-- `std::multiset::insert`.
unfoldable pub insert_key : Text → List Text → List Text
insert_key k [] = k ∷ []
insert_key k (j ∷ js) = let rest = insert_key k js in if text_less k j then k ∷ j ∷ js else j ∷ rest

unfoldable pub sorted_keys : List Text → List Text
sorted_keys [] = []
sorted_keys (k ∷ ks) = insert_key k (sorted_keys ks)

-- "# codeskeptic-baseline v2"
abbrev pub header_v2 : Text
header_v2 =
    35 ∷ 32 ∷ 99 ∷ 111 ∷ 100 ∷ 101 ∷ 115 ∷ 107 ∷ 101 ∷ 112 ∷ 116 ∷ 105 ∷ 99 ∷ 45 ∷ 98 ∷ 97 ∷ 115
    ∷ 101 ∷ 108 ∷ 105 ∷ 110 ∷ 101 ∷ 32 ∷ 118 ∷ 50 ∷ []

-- The lines that `Baseline::write` puts in the file.
unfoldable pub write : (Text → List Text) → List Diagnostic → List Text
write files ds = header_v2 ∷ sorted_keys (map (key_v2 files) ds)

abbrev pub Counts : Type 0
Counts = List (Text × ℕ)

-- `++counts_[line]`.
unfoldable pub increment : Text → Counts → Counts
increment k [] = (k, 1) ∷ []
increment k (e ∷ es) =
    let rest = increment k es in if text_eq e.0 k then (e.0, suc e.1) ∷ es else e ∷ rest

unfoldable pub is_skipped : Text → Bool
is_skipped [] = true
is_skipped (c ∷ cs) = c == 35

unfoldable pub count_lines : Counts → List Text → Counts
count_lines counts [] = counts
count_lines counts (l ∷ ls) = count_lines (if is_skipped l then counts else increment l counts) ls

-- `Baseline::load`: whether the file could be opened, and the counts.
unfoldable pub load : Option (List Text) → Bool × Counts
load none = (false, [])
load (some lines) = (true, count_lines [] lines)

unfoldable pub put_first : Text × ℕ → Option Counts → Option Counts
put_first e none = none
put_first e (some es) = some (e ∷ es)

-- The lambda `consume` of the filter: the budget that is left, or none if there is no entry left.
unfoldable pub consume : Counts → Text → Option Counts
consume [] k = none
consume (e ∷ es) k =
    let rest = consume es k in
    if text_eq e.0 k
    then if e.1 == 0 then none else some ((e.0, e.1 - 1) ∷ es)
    else put_first e rest

unfoldable pub consume_either : Counts → Text → Text → Option Counts
consume_either budget v1 v2 = elim (consume budget v1) [
  | some left ↦ some left
  | none ↦ consume budget v2
]

-- The `std::remove_if` of the filter.
unfoldable pub remove_known : (Text → List Text) → Counts → List Diagnostic → List Diagnostic
remove_known files budget [] = []
remove_known files budget (d ∷ ds) = elim (consume_either budget (key_v1 d) (key_v2 files d)) [
  | some left ↦ remove_known files left ds
  | none ↦ d ∷ remove_known files budget ds
]

-- `Baseline::filter`: the findings that stay, and the number removed.
unfoldable pub filter : (Text → List Text) → Counts → List Diagnostic → List Diagnostic × ℕ
filter files counts ds =
    if is_nil counts
    then (ds, 0)
    else let kept = remove_known files counts ds in (kept, length ds - length kept)
