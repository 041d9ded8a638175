-- ===== src/Crypto/UrlEncode.antt =====
-- UrlEncode of crypto/urlencode.cpp. A character is a byte; `none` is a failed assertion.
pub mod Accept
pub mod Check
use huicpp.Base.{
  ℕ, ◌+◌, ◌-◌, ◌*◌, ◌/◌, ◌%◌, ◌<◌, ◌≡◌, refl, ap, ◌∙◌, arith, List, [], ◌∷◌, ◌++◌, All, Bool, true,
  false, ◌&&◌, ◌||◌, if◌then◌else◌, leb, ltb, ◌==◌, Bool-cases, inl, inr, Option, none, some,
}

unfoldable pub to_hex : ℕ → ℕ
to_hex x = if ltb 9 x then x + 55 else x + 48

unfoldable pub between : ℕ → ℕ → ℕ → Bool
between a b c = leb a c && leb c b

unfoldable pub from_hex : ℕ → Option ℕ
unfolding between
from_hex x =
    if between 65 90 x
    then some (x - 65 + 10)
    else (if between 97 122 x
        then some (x - 97 + 10)
        else (if between 48 57 x then some (x - 48) else none))

-- `safes.find(c)` finds it.
unfoldable pub member : ℕ → List ℕ → Bool
member c [] = false
member c (d ∷ ds) = (d == c) || member c ds

-- A letter or digit, `-`, `_`, `.`, `~`, or one of `safes`.
unfoldable pub is_kept : List ℕ → ℕ → Bool
unfolding between member
is_kept safes c =
    (between 48 57 c || (between 65 90 c || between 97 122 c))
    || ((c == 45) || ((c == 95) || ((c == 46) || ((c == 126) || member c safes))))

unfoldable pub encode_char : List ℕ → ℕ → List ℕ
unfolding is_kept to_hex
encode_char safes c =
    if is_kept safes c
    then c ∷ []
    else (if c == 32 then 43 ∷ [] else 37 ∷ to_hex (c / 16) ∷ to_hex (c % 16) ∷ [])

unfoldable pub encode : List ℕ → List ℕ → List ℕ
unfolding encode_char
encode safes [] = []
encode safes (c ∷ s) = encode_char safes c ++ encode safes s

unfoldable pub push : ℕ → Option (List ℕ) → Option (List ℕ)
push c none = none
push c (some s) = some (c ∷ s)

-- The two digits after a `%`, and the rest.
unfoldable pub push_byte : Option ℕ → Option ℕ → Option (List ℕ) → Option (List ℕ)
unfolding push
push_byte (some high) (some low) rest = push ((high * 16 + low) % 256) rest
push_byte none low rest = none
push_byte (some high) none rest = none

-- One character that is not followed by two others, or is no `%`.
unfoldable pub decode_char : ℕ → Option (List ℕ) → Option (List ℕ)
unfolding push
decode_char c rest = if c == 43 then push 32 rest else push c rest

unfoldable pub decode : List ℕ → Option (List ℕ)
unfolding decode_char push_byte from_hex
decode [] = some []
decode (c ∷ []) = if c == 37 then none else decode_char c (some [])
decode (c ∷ h ∷ []) = let rest = decode (h ∷ []) in if c == 37 then none else decode_char c rest
decode (c ∷ h ∷ l ∷ s) =
    let rest = decode (h ∷ l ∷ s) in
    let after = decode s in
    if c == 37 then push_byte (from_hex h) (from_hex l) after else decode_char c rest

from_hex-to_hex : (x : ℕ) → x < 16 → from_hex (to_hex x) ≡ some x
unfolding from_hex to_hex between
from_hex-to_hex x h = grind arith

decode_plain : (c : ℕ) (s : List ℕ) → (c == 37) ≡ false → decode (c ∷ s) ≡ decode_char c (decode s)
unfolding decode
decode_plain c [] e = rw e refl
decode_plain c (h ∷ []) e = rw e refl
decode_plain c (h ∷ l ∷ s) e = rw e refl

digits :
    (h l : ℕ) (s : List ℕ)
    → decode (37 ∷ h ∷ l ∷ s) ≡ push_byte (from_hex h) (from_hex l) (decode s)
unfolding decode
digits h l s = refl

-- A character that is kept is none that is kept only as one of `safes`, and is not there.
pub kept-ne :
    (safes : List ℕ) (c d : ℕ)
    → is_kept safes d ≡ member d safes
    → member d safes ≡ false
    → is_kept safes c ≡ true
    → (c == d) ≡ false
kept-ne safes c d m f k = elim (Bool-cases (c == d)) [
  | inl b ↦
      (let e : c ≡ d = ground (arith, b) in absurd (ground (arith, k, ap (is_kept safes) e, m, f)))
  | inr b ↦ b
]

-- A character that is kept stands for itself, if `safes` has neither `%` nor `+`.
kept_plain :
    (safes : List ℕ) (c : ℕ)
    → member 37 safes ≡ false
    → member 43 safes ≡ false
    → is_kept safes c ≡ true
    → ((c == 37) ≡ false) × ((c == 43) ≡ false)
kept_plain safes c p q k = (
  kept-ne safes c 37 (unfold is_kept between in refl) p k,
  kept-ne safes c 43 (unfold is_kept between in refl) q k,
)

module _ (safes : List ℕ) (p : member 37 safes ≡ false) (q : member 43 safes ≡ false) where
  decode-encode_char :
      (c : ℕ) (s : List ℕ) → c < 256 → decode (encode_char safes c ++ s) ≡ push c (decode s)
  unfolding encode_char
  decode-encode_char c s h = elim (Bool-cases (is_kept safes c)) [
    | inl k ↦
        (let (a, b) = kept_plain safes c p q k in
          rw (k, decode_plain c s a) (unfold decode_char in rw b refl))
    | inr k ↦ elim (Bool-cases (c == 32)) [
      | inl b ↦
          (let e : c ≡ 32 = ground (arith, b) in
            rw (k, b, decode_plain 43 s refl, e) (unfold decode_char in refl))
      | inr b ↦ rw (k, b) (hexed c s h)
    ]
  ]
    where
      hexed :
          (c : ℕ) (s : List ℕ)
          → c < 256
          → decode (37 ∷ to_hex (c / 16) ∷ to_hex (c % 16) ∷ s) ≡ push c (decode s)
      hexed c s h =
          let e : (c / 16 * 16 + c % 16) % 256 ≡ c = omega (arith, h) in
          rw
            (
              digits (to_hex (c / 16)) (to_hex (c % 16)) s,
              from_hex-to_hex (c / 16) (omega (arith, h)),
              from_hex-to_hex (c % 16) (omega arith),
            )
            (unfold push_byte in rw e refl)

  -- Decode gives back what Encode was given.
  pub decode-encode : (s : List ℕ) → All (λ c. c < 256) s → decode (encode safes s) ≡ some s
  unfolding encode
  decode-encode [] h = unfold decode in refl
  decode-encode (c ∷ s) (h, hs) =
      decode-encode_char c (encode safes s) h ∙ rw (decode-encode s hs) (unfold push in refl)
