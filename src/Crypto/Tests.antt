-- ===== src/Crypto/Tests.antt =====
-- Concrete texts, and the theorems at concrete inputs.
use huicpp.Base.Options.{◌>>=◌}
use huicpp.Base.{ℕ, ◌≡◌, refl, arith, List, [], ◌∷◌, true, false, none, some}
use huicpp.Crypto.UrlEncode.{
  to_hex, between, member, is_kept, encode_char, encode, decode_char, decode, decode-encode,
}
use huicpp.Crypto.UrlEncode.Check.{
  good_char, percent_at_end, each_percent, is_url_encode, is_url_encode-decode,
}
use huicpp.Crypto.Hex.{digit, hexbyte, char_index, join, hex_str}

-- "a /" with "-" as the only safe character.
abbrev text : List ℕ
text = 97 ∷ 32 ∷ 47 ∷ []

encoded : encode (45 ∷ []) text ≡ (97 ∷ 43 ∷ 37 ∷ 50 ∷ 70 ∷ [])
unfolding encode encode_char is_kept between member to_hex
encoded = refl

cut_off : decode (97 ∷ 37 ∷ 50 ∷ []) ≡ none
unfolding decode decode_char
cut_off = refl

-- "%2F" is accepted, and "%2f" is not.
accepted : is_url_encode (37 ∷ 50 ∷ 70 ∷ []) ≡ some true
unfolding is_url_encode percent_at_end each_percent good_char between ◌>>=◌
accepted = refl

refused : is_url_encode (37 ∷ 50 ∷ 102 ∷ []) ≡ some false
unfolding is_url_encode percent_at_end each_percent good_char between ◌>>=◌
refused = refl

is_url_encode_example : (t : List ℕ) × (decode (37 ∷ 50 ∷ 70 ∷ []) ≡ some t)
is_url_encode_example = is_url_encode-decode (37 ∷ 50 ∷ 70 ∷ []) accepted

two_digits : hex_str (31 ∷ []) ≡ some (49 ∷ 102 ∷ [])
unfolding hex_str hexbyte char_index digit join
two_digits = refl

decode-encode_example : decode (encode (45 ∷ []) text) ≡ some text
decode-encode_example =
    decode-encode (45 ∷ []) (unfold member in refl) (unfold member in refl) text
      (omega arith, (omega arith, (omega arith, tt)))
