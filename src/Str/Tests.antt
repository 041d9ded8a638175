-- ===== src/Str/Tests.antt =====
-- Concrete strings, and the theorems at concrete inputs.
use huicpp.Base.{◌≡◌, ◌≢◌, refl, arith, List, [], ◌∷◌, ◌++◌, true, false, some}
use huicpp.Base.Options.{◌>>=◌}
use huicpp.Str.{
  Str, Ret, is_prefix, plus, find, find_from, is_empty, split, split_loop, substr, replace,
  replaces, is_ok, is_end_with, npos_or, count, counter, is_in, is_begin_with, remove_left,
  remove_right,
}
use huicpp.Str.Split.{join, Pieces, split_lem}
use huicpp.Str.Trim.{
  trim, tr_str, drop_front, drop_end, trim_lem, find_first_not_of, contains, is_all_of,
  is_all_digit, is_all_digit_and_dos, is_all_digit_and_char, letters_from,
}

-- "a,b,,c", with numbers for the characters.
abbrev list : Str
list = 1 ∷ 0 ∷ 2 ∷ 0 ∷ 0 ∷ 3 ∷ []

not_empty : list ≢ []
not_empty e = ground (arith, e)

four_pieces : split list (0 ∷ []) 0 ≡ some (Ret.ok, (1 ∷ []) ∷ (2 ∷ []) ∷ [] ∷ (3 ∷ []) ∷ [])
unfolding split is_empty split_loop substr find_from find plus is_prefix ◌>>=◌
four_pieces = refl

-- IsEndWith of a string and another one of the same length, and of a string and its last character.
ends : (is_end_with (1 ∷ 2 ∷ []) (3 ∷ 4 ∷ []) ≡ true) × (is_end_with (1 ∷ 2 ∷ []) (2 ∷ []) ≡ false)
unfolding is_end_with npos_or find plus is_prefix
ends = (refl, refl)

overlaps : counter (1 ∷ 1 ∷ 1 ∷ []) (1 ∷ 1 ∷ []) ≡ some 2
unfolding counter count find_from find plus is_prefix
overlaps = refl

replaced : replaces 4 (1 ∷ 2 ∷ 1 ∷ []) (1 ∷ []) (5 ∷ 5 ∷ []) ≡ some (5 ∷ 5 ∷ 2 ∷ 5 ∷ 5 ∷ [])
unfolding replaces replace is_ok is_empty find plus is_prefix
replaced = refl

trimmed :
    (remove_left list 2 ≡ (2 ∷ 0 ∷ 0 ∷ 3 ∷ []))
    × (remove_right list 5 ≡ (1 ∷ []))
    × (is_in list (2 ∷ []) ≡ true)
    × (is_begin_with list (1 ∷ 0 ∷ []) ≡ true)
unfolding remove_left remove_right is_in is_begin_with npos_or find plus is_prefix
trimmed = (refl, refl, refl, refl)

split_example :
    (pieces : List Str) × (split list (0 ∷ []) 0 ≡ some (Ret.ok, pieces))
    × (join pieces (0 ∷ []) ≡ list)
    × Pieces pieces (0 ∷ [])
split_example = split_lem list 0 [] 0 not_empty (omega arith)

-- "4.2"
number :
    (is_all_digit (52 ∷ 46 ∷ 50 ∷ []) ≡ false) × (is_all_digit_and_dos (52 ∷ 46 ∷ 50 ∷ []) ≡ true)
unfolding is_all_digit is_all_digit_and_dos is_all_of find_first_not_of contains plus
number = (refl, refl)

-- "z9A" and "z-".
digits_and_letters :
    (is_all_digit_and_char (122 ∷ 57 ∷ 65 ∷ []) ≡ true)
    × (is_all_digit_and_char (122 ∷ 45 ∷ []) ≡ false)
unfolding is_all_digit_and_char is_all_of find_first_not_of contains letters_from plus
digits_and_letters = (refl, refl)

trim_example :
    trim (1 ∷ []) (32 ∷ 1 ∷ 5 ∷ 32 ∷ 6 ∷ 10 ∷ [])
    ≡ drop_end
        (tr_str ++ (1 ∷ []))
        (drop_front (tr_str ++ (1 ∷ [])) (32 ∷ 1 ∷ 5 ∷ 32 ∷ 6 ∷ 10 ∷ []))
trim_example = trim_lem (1 ∷ []) (32 ∷ 1 ∷ 5 ∷ 32 ∷ 6 ∷ 10 ∷ []) (omega arith)
