-- ===== src/Conf/Lines.antt =====
-- What LoadConfig makes of the lines "key=value".
use mathlib.Core.Path.{subst}
use huicpp.Base.{
  ℕ, ◌<◌, ◌≡◌, ◌≢◌, refl, sym, ap, ◌∙◌, arith, List, [], ◌∷◌, ◌++◌, length, map, All, append_assoc,
  true, false, if◌then◌else◌, ltb, ◌==◌, Bool-cases, Option, inl, inr, some,
}
use huicpp.Base.Options.{◌>>=◌}
use huicpp.Str.{Str, Ret, split, is_ok}
use huicpp.Str.Split.{join}
use huicpp.Str.Pieces.{Free, split-join}
use huicpp.Str.Trim.{trim}
use huicpp.Str.Equal.{same_str, same_str_eq, less_str, not_same}
use huicpp.Conf.{
  Conf, find_value, set_value, is_note_line, set_pieces, load_line, load_lines, load_config,
  min_content_length,
}

-- A line of a file.
abbrev pub line : Str × Str → Str
line (k, v) = k ++ (61 ∷ v)

-- A key and a value that stand for themselves in a line: no line break, no '=', nothing that Trim takes
-- off, and a line that is not a note.
pub record IsEntry (e : Str × Str) : Type 0 where
  pub key_plain : All (λ d. (d == 61) ≡ false) e.0
  pub value_plain : All (λ d. (d == 61) ≡ false) e.1
  pub one_line : All (λ d. (d == 10) ≡ false) (e.0 ++ (61 ∷ e.1))
  pub key_trimmed : trim [] e.0 ≡ e.0
  pub value_trimmed : trim [] e.1 ≡ e.1
  pub no_note : is_note_line (e.0 ++ (61 ∷ e.1)) ≡ false

not_empty : (k s : Str) (c : ℕ) → k ++ (c ∷ s) ≢ []
not_empty [] s c e = absurd (ground (arith, e))
not_empty (d ∷ k) s c e = absurd (ground (arith, e))

load_line-entry :
    (e : Str × Str) (m : Conf)
    → IsEntry e
    → load_line (line e) (true, m) ≡ some (true, set_value e.0 e.1 m)
unfolding load_line set_pieces ◌>>=◌ is_ok
load_line-entry (k, v) m h =
    let parts : join (k ∷ v ∷ []) (61 ∷ []) ≡ k ++ (61 ∷ v) =
      unfold join in append_assoc k (61 ∷ []) v in
    let pieces : split (k ++ (61 ∷ v)) (61 ∷ []) 0 ≡ some (Ret.ok, k ∷ v ∷ []) =
      subst (λ t. split t (61 ∷ []) 0 ≡ some (Ret.ok, k ∷ v ∷ [])) parts
        (split-join 61 k (v ∷ []) (λ z. not_empty k v 61 (sym parts ∙ z))
          (h.key_plain, (h.value_plain, tt))) in
    rw (h.no_note, pieces, h.key_trimmed, h.value_trimmed) refl

set_all : List (Str × Str) → Conf → Conf
set_all [] m = m
set_all ((k, v) ∷ es) m = set_all es (set_value k v m)

load_lines-entries :
    (es : List (Str × Str)) (m : Conf)
    → All IsEntry es
    → load_lines (map line es) (true, m) ≡ some (true, set_all es m)
unfolding load_lines set_all
load_lines-entries [] m h = refl
load_lines-entries ((k, v) ∷ es) m (h, hs) =
    rw (load_line-entry (k, v) m h) (unfold ◌>>=◌ in load_lines-entries es (set_value k v m) hs)

-- The value that a list of entries gives to a key, the last one if there are several; `o` if there is none.
pub last_value : Str → List (Str × Str) → Option Str → Option Str
last_value key [] o = o
last_value key ((k, v) ∷ es) o = last_value key es (if same_str k key then some v else o)

find_value-set_value :
    (key k v : Str) (m : Conf)
    → find_value key (set_value k v m) ≡ (if same_str k key then some v else find_value key m)
unfolding find_value set_value
find_value-set_value key k v [] = refl
find_value-set_value key k v ((j, w) ∷ m) = elim (Bool-cases (same_str j k)) [
  | inl y ↦
      (let e = same_str_eq j k y in
        elim (Bool-cases (same_str k key)) [
          | inl z ↦ rw (y, e, z) refl
          | inr n ↦ rw (y, e, n) refl
        ])
  | inr n ↦ elim (Bool-cases (less_str k j)) [
    | inl y ↦ rw (n, y) refl
    | inr l ↦ elim (Bool-cases (same_str j key)) [
      | inl y ↦ rw (n, l, y, not_same j k key n y) refl
      | inr z ↦ rw (n, l, z) (find_value-set_value key k v m)
    ]
  ]
]

set_all-last_value :
    (key : Str) (es : List (Str × Str)) (m : Conf)
    → find_value key (set_all es m) ≡ last_value key es (find_value key m)
unfolding set_all last_value
set_all-last_value key [] m = refl
set_all-last_value key ((k, v) ∷ es) m =
    set_all-last_value key es (set_value k v m)
    ∙ ap (last_value key es) (find_value-set_value key k v m)

-- LoadConfig of a file of lines "key=value", of more than ten characters: it returns OK, and then each key
-- has the value of its last line, or what it had before if no line is about it.
pub load_config_lem :
    (e : Str × Str) (es : List (Str × Str)) (m : Conf)
    → All IsEntry (e ∷ es)
    → min_content_length < length (join (map line (e ∷ es)) (10 ∷ []))
    → (m' : Conf) × (load_config (join (map line (e ∷ es)) (10 ∷ [])) m ≡ some (true, m'))
      × ((key : Str) → find_value key m' ≡ last_value key (e ∷ es) (find_value key m))
unfolding load_config ◌>>=◌ is_ok
load_config_lem e es m h l =
    let text = join (map line (e ∷ es)) (10 ∷ []) in
    let long : ltb min_content_length (length text) ≡ true = ground (arith, l) in
    let pieces = split-join 10 (line e) (map line es) (long_text text l) (lines_free (e ∷ es) h) in
    let loaded = load_lines-entries (e ∷ es) m h in
    (set_all (e ∷ es) m, rw (long, pieces, loaded) refl, λ key. set_all-last_value key (e ∷ es) m)
  where
    long_text : (t : Str) → min_content_length < length t → t ≢ []
    long_text [] k z = absurd (omega arith)
    long_text (c ∷ t) k z = absurd (ground (arith, z))

    lines_free : (es : List (Str × Str)) → All IsEntry es → All (Free 10) (map line es)
    lines_free [] h = tt
    lines_free ((k, v) ∷ es) (h, hs) = (h.one_line, lines_free es hs)
