-- ===== src/Crypto/UrlEncode/Accept.antt =====
-- IsUrlEncode of crypto/urlencode.cpp on what Encode makes.
use huicpp.Base.{
  ℕ, length-append, ◌/◌, ◌%◌, ◌<◌, ◌≤◌, ◌≡◌, refl, ◌∙◌, arith, List, [], ◌∷◌, ◌++◌, All, length,
  true, false, if◌then◌else◌, ◌==◌, Bool-cases, inl, inr, some,
}
use huicpp.Base.Options.{◌>>=◌}
use huicpp.Crypto.UrlEncode.{between, to_hex, member, is_kept, encode_char, encode, kept-ne}
use huicpp.Crypto.UrlEncode.Check.{
  good_char, percent_at_end, each_percent, is_url_encode, each_percent-behind, last_test,
}

no_percent : (b : ℕ) → each_percent (b ∷ []) ≡ true → (b == 37) ≡ false
unfolding each_percent
no_percent b e = ground (arith, e)

two_characters :
    (a b : ℕ)
    → each_percent (a ∷ b ∷ []) ≡ true
    → (if a == 37 then false else each_percent (b ∷ [])) ≡ true
unfolding each_percent
two_characters a b e = e

-- After the loop the test of the end has nothing left to refuse.
percent_at_end-each_percent :
    (s : List ℕ) → 2 ≤ length s → each_percent s ≡ true → percent_at_end s ≡ some false
unfolding percent_at_end
percent_at_end-each_percent [] h e = absurd (omega (arith, h))
percent_at_end-each_percent (a ∷ []) h e = absurd (omega (arith, h))
percent_at_end-each_percent (a ∷ b ∷ []) h e =
    let (p, q) = last_test (a == 37) (each_percent (b ∷ [])) (two_characters a b e) in
    rw (p, no_percent b q) refl
percent_at_end-each_percent (a ∷ b ∷ c ∷ s) h e =
    percent_at_end-each_percent (b ∷ c ∷ s) (omega arith) (each_percent-behind a (b ∷ c ∷ s) e)

each_percent_plain :
    (c : ℕ) (s : List ℕ) → (c == 37) ≡ false → each_percent (c ∷ s) ≡ each_percent s
unfolding each_percent
each_percent_plain c [] n = rw n refl
each_percent_plain c (h ∷ []) n = rw n refl
each_percent_plain c (h ∷ l ∷ s) n = rw n refl

to_hex-good_char : (x : ℕ) → x < 16 → (good_char (to_hex x) ≡ true) × ((to_hex x == 37) ≡ false)
unfolding to_hex good_char between
to_hex-good_char x h = grind arith

good_digits :
    (h l : ℕ) (s : List ℕ)
    → good_char h ≡ true
    → good_char l ≡ true
    → each_percent (37 ∷ h ∷ l ∷ s) ≡ each_percent (h ∷ l ∷ s)
unfolding each_percent
good_digits h l s g j = rw (g, j) refl

each_percent_digits :
    (x y : ℕ) (s : List ℕ)
    → x < 16
    → y < 16
    → each_percent (37 ∷ to_hex x ∷ to_hex y ∷ s) ≡ each_percent s
each_percent_digits x y s h k =
    let (g, n) = to_hex-good_char x h in
    let (j, m) = to_hex-good_char y k in
    good_digits (to_hex x) (to_hex y) s g j
    ∙ each_percent_plain (to_hex x) (to_hex y ∷ s) n
    ∙ each_percent_plain (to_hex y) s m

module _ (safes : List ℕ) (p : member 37 safes ≡ false) where
  each_percent-encode_char :
      (c : ℕ) (s : List ℕ) → c < 256 → each_percent (encode_char safes c ++ s) ≡ each_percent s
  unfolding encode_char
  each_percent-encode_char c s h = elim (Bool-cases (is_kept safes c)) [
    | inl k ↦
        (let n = kept-ne safes c 37 (unfold is_kept between in refl) p k in
          rw k (each_percent_plain c s n))
    | inr k ↦ elim (Bool-cases (c == 32)) [
      | inl b ↦ rw (k, b) (each_percent_plain 43 s refl)
      | inr b ↦ rw (k, b) (each_percent_digits (c / 16) (c % 16) s (omega (arith, h)) (omega arith))
    ]
  ]

  each_percent-encode : (s : List ℕ) → All (λ c. c < 256) s → each_percent (encode safes s) ≡ true
  unfolding encode
  each_percent-encode [] h = unfold each_percent in refl
  each_percent-encode (c ∷ s) (h, hs) =
      each_percent-encode_char c (encode safes s) h ∙ each_percent-encode s hs

  encode_char_long : (c : ℕ) → 1 ≤ length (encode_char safes c)
  unfolding encode_char
  encode_char_long c = elim (Bool-cases (is_kept safes c)) [
    | inl k ↦ rw k (omega arith)
    | inr k ↦ elim (Bool-cases (c == 32)) [
      | inl b ↦ rw (k, b) (omega arith)
      | inr b ↦ rw (k, b) (omega arith)
    ]
  ]

  encode_long : (s : List ℕ) → length s ≤ length (encode safes s)
  unfolding encode
  encode_long [] = omega arith
  encode_long (c ∷ s) =
      let l = length-append (encode_char safes c) (encode safes s) in
      omega (arith, l, encode_char_long c, encode_long s)

  -- IsUrlEncode accepts what Encode makes of a text of two characters or more, if the safe characters
  -- have no percent sign.
  pub is_url_encode-encode :
      (s : List ℕ)
      → All (λ c. c < 256) s
      → 2 ≤ length s
      → is_url_encode (encode safes s) ≡ some true
  unfolding is_url_encode ◌>>=◌
  is_url_encode-encode s h n =
      let e = each_percent-encode s h in
      rw (percent_at_end-each_percent (encode safes s) (omega (arith, n, encode_long s)) e, e) refl
