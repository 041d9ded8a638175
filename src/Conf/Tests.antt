-- ===== src/Conf/Tests.antt =====
-- Concrete maps and a concrete file, and the theorem at a concrete input.
use huicpp.Base.{◌<◌, ◌≡◌, refl, arith, [], ◌∷◌, length, map, true, some}
use huicpp.Str.{Str, split}
use huicpp.Str.Split.{join}
use huicpp.Str.Trim.{trim, ltrim, rtrim, find_first_not_of, find_last_not_of}
use huicpp.Conf.{
  Conf, find_value, set_value, remove_key, to_param_string, to_json, is_note_line, load_config,
  min_content_length,
}
use huicpp.Conf.Lines.{line, IsEntry, last_value, load_config_lem}

-- The keys "b" and "a", with the values "1" and "2".
abbrev b_1 : Str × Str
b_1 = (98 ∷ [], 49 ∷ [])

abbrev a_2 : Str × Str
a_2 = (97 ∷ [], 50 ∷ [])

abbrev b_3 : Str × Str
b_3 = (98 ∷ [], 51 ∷ [])

-- a map in the order of its keys
in_order : set_value (97 ∷ []) (50 ∷ []) (b_1 ∷ []) ≡ a_2 ∷ b_1 ∷ []
unfolding set_value
in_order = refl

-- {"a":"2"},{"b":"1"}} after "{ ", which is no JSON
two_entries :
    to_json (b_1 ∷ []) ≡ 123 ∷ 32 ∷ 123 ∷ 34 ∷ 98 ∷ 34 ∷ 58 ∷ 34 ∷ 49 ∷ 34 ∷ 125 ∷ 125 ∷ []
unfolding to_json
two_entries = refl

no_entries : to_json [] ≡ 123 ∷ 125 ∷ []
unfolding to_json
no_entries = refl

-- "a=2&b=1"
params : to_param_string (a_2 ∷ b_1 ∷ []) ≡ 97 ∷ 61 ∷ 50 ∷ 38 ∷ 98 ∷ 61 ∷ 49 ∷ []
unfolding to_param_string
params = refl

removed : remove_key (98 ∷ []) (a_2 ∷ b_1 ∷ []) ≡ (1, a_2 ∷ [])
unfolding remove_key
removed = refl

-- A value is cut at its second '=': "key=x=yz" with more behind it.
cut :
    load_config (107 ∷ 61 ∷ 120 ∷ 61 ∷ 121 ∷ 122 ∷ 10 ∷ 97 ∷ 97 ∷ 61 ∷ 50 ∷ []) []
    ≡ some (true, (97 ∷ 97 ∷ [], 50 ∷ []) ∷ (107 ∷ [], 120 ∷ []) ∷ [])
unfolding load_config split set_value trim rtrim find_last_not_of ltrim find_first_not_of
cut = refl

load_config_lem_example :
    (m' : Conf) × (load_config (join (map line (b_1 ∷ a_2 ∷ b_3 ∷ [])) (10 ∷ [])) []
      ≡ some (true, m'))
    × ((key : Str) → find_value key m' ≡ last_value key (b_1 ∷ a_2 ∷ b_3 ∷ []) (find_value key []))
unfolding rtrim find_last_not_of ltrim find_first_not_of
load_config_lem_example =
    load_config_lem b_1 (a_2 ∷ b_3 ∷ []) [] (b_1-entry, (a_2-entry, (b_3-entry, tt))) long
  where
    b_1-entry : IsEntry b_1
    b_1-entry = record {
      key_plain = (refl, tt);
      value_plain = (refl, tt);
      one_line = (refl, (refl, (refl, tt)));
      key_trimmed = unfold trim in refl;
      value_trimmed = unfold trim in refl;
      no_note = unfold is_note_line in refl;
    }

    a_2-entry : IsEntry a_2
    a_2-entry = record {
      key_plain = (refl, tt);
      value_plain = (refl, tt);
      one_line = (refl, (refl, (refl, tt)));
      key_trimmed = unfold trim in refl;
      value_trimmed = unfold trim in refl;
      no_note = unfold is_note_line in refl;
    }

    b_3-entry : IsEntry b_3
    b_3-entry = record {
      key_plain = (refl, tt);
      value_plain = (refl, tt);
      one_line = (refl, (refl, (refl, tt)));
      key_trimmed = unfold trim in refl;
      value_trimmed = unfold trim in refl;
      no_note = unfold is_note_line in refl;
    }

    long : min_content_length < length (join (map line (b_1 ∷ a_2 ∷ b_3 ∷ [])) (10 ∷ []))
    long = unfold join in omega arith
