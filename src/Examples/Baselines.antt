-- ===== src/Examples/Baselines.antt =====
-- A baseline of one finding, and a later run with two of the same text.
use code_skeptic.Prelude.{ℕ, ◌≡◌, refl, ◌-◌, true, false, some, List, [], ◌∷◌, ◌++◌, map}
use code_skeptic.Prelude.Text.{Text, text_eq, text_less}
use code_skeptic.Baseline.{
  Diagnostic, key_v1, key_v2, joined, decimal, fnv1a64, fnv1a64_hex, hex, hex_digit, xor_low,
  trimmed, drop_leading, drop_trailing, is_space, source_line, text_or_empty, insert_key,
  sorted_keys, write, load, count_lines, increment, is_skipped, consume, consume_either, put_first,
  remove_known, filter,
}
use code_skeptic.Baseline.Keys.{occurrences}
use code_skeptic.Baseline.Filter.{filter-load-write}
use code_skeptic.Baseline.Moved.{key_v2-moved}

-- "delete p;"
abbrev deletion : Text
deletion = 100 ∷ 101 ∷ 108 ∷ 101 ∷ 116 ∷ 101 ∷ 32 ∷ 112 ∷ 59 ∷ []

abbrev before : Text → List Text
before file = (32 ∷ deletion) ∷ []

abbrev after : Text → List Text
after file = [] ∷ (9 ∷ deletion) ∷ deletion ∷ []

abbrev finding : ℕ → Diagnostic
finding n = record { rule_id = 82 ∷ []; file = 102 ∷ []; line = n; message = 109 ∷ [] }

-- The offset basis for the empty string, and the value for "a" that the algorithm's authors list.
hash_of_empty : fnv1a64 14695981039346656037 (97 ∷ []) ≡ 12638187200555641996
unfolding fnv1a64 xor_low
hash_of_empty = refl

one_stays :
    (filter after (load (some (write before (finding 1 ∷ [])))).1 (finding 2 ∷ finding 3 ∷ [])).0
    ≡ finding 3 ∷ []
unfolding key_v1 key_v2 joined decimal fnv1a64 fnv1a64_hex hex hex_digit xor_low trimmed
    drop_leading drop_trailing is_space source_line text_or_empty text_eq text_less insert_key
    sorted_keys write load count_lines increment is_skipped consume consume_either put_first
    remove_known filter
one_stays = refl

abbrev recorded_key : Text
recorded_key = key_v2 before (finding 1)

recorded_key_counts : is_skipped recorded_key ≡ false
unfolding key_v2 joined is_skipped
recorded_key_counts = refl

v1_counts : (n : ℕ) → is_skipped (key_v1 (finding n)) ≡ false
unfolding key_v1 joined is_skipped
v1_counts n = refl

second_is_new : occurrences (key_v1 (finding 2)) (map (key_v2 before) (finding 1 ∷ [])) ≡ 0
unfolding key_v1 key_v2 joined decimal fnv1a64 fnv1a64_hex hex hex_digit xor_low trimmed
    drop_leading drop_trailing is_space source_line text_or_empty text_eq occurrences
second_is_new = refl

third_is_new : occurrences (key_v1 (finding 3)) (map (key_v2 before) (finding 1 ∷ [])) ≡ 0
unfolding key_v1 key_v2 joined decimal fnv1a64 fnv1a64_hex hex hex_digit xor_low trimmed
    drop_leading drop_trailing is_space source_line text_or_empty text_eq occurrences
third_is_new = refl

filter-load-write_example :
    occurrences recorded_key (
      map
        (key_v2 after)
        (filter after
          (load (some (write before (finding 1 ∷ [])))).1
          (finding 2 ∷ finding 3 ∷ [])).0)
    ≡ occurrences recorded_key (map (key_v2 after) (finding 2 ∷ finding 3 ∷ []))
      - occurrences recorded_key (map (key_v2 before) (finding 1 ∷ []))
filter-load-write_example =
    filter-load-write before after (finding 1 ∷ []) (finding 2 ∷ finding 3 ∷ []) recorded_key
      recorded_key_counts ((v1_counts 2, second_is_new), ((v1_counts 3, third_is_new), tt))

first_line : source_line before (102 ∷ []) 1 ≡ (32 ∷ []) ++ deletion
unfolding source_line text_or_empty
first_line = refl

second_line : source_line after (102 ∷ []) 2 ≡ (9 ∷ []) ++ deletion
unfolding source_line text_or_empty
second_line = refl

blank : is_space 32 ≡ true
unfolding is_space
blank = refl

tabulator : is_space 9 ≡ true
unfolding is_space
tabulator = refl

key_v2-moved_example : key_v2 after (finding 2) ≡ key_v2 before (finding 1)
key_v2-moved_example =
    key_v2-moved before after (finding 1) 2 (32 ∷ []) (9 ∷ []) deletion (blank, tt) (tabulator, tt)
      first_line second_line
