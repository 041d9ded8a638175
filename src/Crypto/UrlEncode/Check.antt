-- ===== src/Crypto/UrlEncode/Check.antt =====
-- IsUrlEncode of crypto/urlencode.cpp, and what Decode makes of a text that it accepts.
use huicpp.Base.{
  ℕ, ◌+◌, ◌-◌, ◌≡◌, refl, arith, List, [], ◌∷◌, Bool, true, false, not, ◌||◌, if◌then◌else◌, ◌==◌,
  Bool-cases, inl, inr, Option, none, some,
}
use huicpp.Base.Options.{◌>>=◌, some-Injective}
use huicpp.Crypto.UrlEncode.{between, from_hex, push, push_byte, decode_char, decode}

-- A capital letter or a digit.
unfoldable pub good_char : ℕ → Bool
unfolding between
good_char c = between 65 90 c || between 48 57 c

-- The test of the last two characters. `none`: a text of fewer is read before its start.
unfoldable pub percent_at_end : List ℕ → Option Bool
percent_at_end [] = none
percent_at_end (a ∷ []) = none
percent_at_end (a ∷ b ∷ []) = some (a == 37 || b == 37)
percent_at_end (a ∷ b ∷ c ∷ s) = percent_at_end (b ∷ c ∷ s)

-- The loop. At the end of the text it reads the character 0, which is not good.
unfoldable pub each_percent : List ℕ → Bool
unfolding good_char
each_percent [] = true
each_percent (c ∷ []) = not (c == 37)
each_percent (c ∷ h ∷ []) = let rest = each_percent (h ∷ []) in if c == 37 then false else rest
each_percent (c ∷ h ∷ l ∷ s) =
    let rest = each_percent (h ∷ l ∷ s) in
    if c == 37 then (if not (good_char h) || not (good_char l) then false else rest) else rest

unfoldable pub is_url_encode : List ℕ → Option Bool
unfolding percent_at_end each_percent ◌>>=◌
is_url_encode s = do at_end ← percent_at_end s; some (if at_end then false else each_percent s)

-- There is a result.
abbrev Total : Option (List ℕ) → Type 0
Total o = (t : List ℕ) × (o ≡ some t)

Total-push : (c : ℕ) (o : Option (List ℕ)) → Total o → Total (push c o)
unfolding push
Total-push c o (t, e) = rw e (c ∷ t, refl)

Total-char : (c : ℕ) (o : Option (List ℕ)) → Total o → Total (decode_char c o)
unfolding decode_char
Total-char c o t = elim (Bool-cases (c == 43)) [
  | inl y ↦ rw y (Total-push 32 o t)
  | inr n ↦ rw n (Total-push c o t)
]

from_hex-good_char : (c : ℕ) → good_char c ≡ true → (x : ℕ) × (from_hex c ≡ some x)
unfolding good_char from_hex
from_hex-good_char c g = elim (Bool-cases (between 65 90 c)) [
  | inl y ↦ rw y (c - 65 + 10, refl)
  | inr n ↦ elim (Bool-cases (between 97 122 c)) [
    | inl y ↦ rw (n, y) (c - 97 + 10, refl)
    | inr m ↦ let d : between 48 57 c ≡ true = ground (arith, g, n) in rw (n, m, d) (c - 48, refl)
  ]
]

Total-byte :
    (h l : ℕ) (o : Option (List ℕ))
    → good_char h ≡ true
    → good_char l ≡ true
    → Total o
    → Total (push_byte (from_hex h) (from_hex l) o)
unfolding push_byte
Total-byte h l o g k t =
    let (x, ex) = from_hex-good_char h g in
    let (y, ey) = from_hex-good_char l k in rw (ex, ey) (Total-push _ o t)

-- The tests of the loop for one character.
good_test :
    (p g k rest : Bool)
    → (if p then (if not g || not k then false else rest) else rest) ≡ true
    → (rest ≡ true) × (p ≡ true → (g ≡ true) × (k ≡ true))
good_test true true true rest e = (e, λ h. (refl, refl))
good_test true true false rest e = absurd (ground (arith, e))
good_test true false k rest e = absurd (ground (arith, e))
good_test false g k rest e = (e, λ h. absurd (ground (arith, h)))

pub last_test : (p rest : Bool) → (if p then false else rest) ≡ true → (p ≡ false) × (rest ≡ true)
last_test true rest e = absurd (ground (arith, e))
last_test false rest e = (refl, e)

pub each_percent-behind : (c : ℕ) (s : List ℕ) → each_percent (c ∷ s) ≡ true → each_percent s ≡ true
unfolding each_percent
each_percent-behind c [] e = refl
each_percent-behind c (h ∷ []) e = (last_test (c == 37) (each_percent (h ∷ [])) e).1
each_percent-behind c (h ∷ l ∷ s) e =
    (good_test (c == 37) (good_char h) (good_char l) (each_percent (h ∷ l ∷ s)) e).0

decode-Total : (s : List ℕ) → each_percent s ≡ true → Total (decode s)
unfolding each_percent decode
decode-Total [] e = ([], refl)
decode-Total (c ∷ []) e = elim (Bool-cases (c == 37)) [
  | inl y ↦ absurd (ground (arith, e, y))
  | inr n ↦ rw n (Total-char c (some []) ([], refl))
]
decode-Total (c ∷ h ∷ []) e =
    let (n, rest) = last_test (c == 37) (each_percent (h ∷ [])) e in
    rw n (Total-char c (decode (h ∷ [])) (decode-Total (h ∷ []) rest))
decode-Total (c ∷ h ∷ l ∷ s) e =
    let (rest, good) =
      good_test (c == 37) (good_char h) (good_char l) (each_percent (h ∷ l ∷ s)) e in
    let after = each_percent-behind l s (each_percent-behind h (l ∷ s) rest) in
    elim (Bool-cases (c == 37)) [
      | inl y ↦ (let (g, k) = good y in rw y (Total-byte h l (decode s) g k (decode-Total s after)))
      | inr n ↦ rw n (Total-char c (decode (h ∷ l ∷ s)) (decode-Total (h ∷ l ∷ s) rest))
    ]

is_url_encode-each_percent :
    (s : List ℕ) (o : Option Bool)
    → (o >>= λ at_end. some (if at_end then false else each_percent s)) ≡ some true
    → each_percent s ≡ true
unfolding ◌>>=◌
is_url_encode-each_percent s none e = absurd (ground (arith, e))
is_url_encode-each_percent s (some true) e = absurd (ground (arith, some-Injective e))
is_url_encode-each_percent s (some false) e = some-Injective e

-- A text that IsUrlEncode accepts is decoded: Decode meets no failed assertion.
pub is_url_encode-decode :
    (s : List ℕ) → is_url_encode s ≡ some true → (t : List ℕ) × (decode s ≡ some t)
unfolding is_url_encode
is_url_encode-decode s e = decode-Total s (is_url_encode-each_percent s (percent_at_end s) e)
