-- ===== src/Crypto/Hex.antt =====
-- Hex of crypto/hex.cpp. `none` is an access outside of the table, which the code does not check: a `char`
-- from 128 on is negative, and so is the index.
use huicpp.Base.{
  ℕ, ◌+◌, ◌-◌, ◌*◌, ◌/◌, ◌%◌, ◌^◌, ◌<◌, ◌≤◌, ◌≡◌, refl, arith, List, [], ◌∷◌, ◌++◌, All, length,
  true, false, if◌then◌else◌, ltb, Option, none, some,
}

-- `hexmap[i]` of the 16 digits, written out.
unfoldable pub digit : ℕ → ℕ
digit i = if ltb i 10 then i + 48 else i + 87

-- An entry of the table that create_hexbyte_map makes.
unfoldable pub hexbyte : ℕ → Option (List ℕ)
unfolding digit
hexbyte i = if ltb i 256 then some (digit (i / 16) ∷ digit (i % 16) ∷ []) else none

-- The index of a `char`, converted to 64 bits.
unfoldable pub char_index : ℕ → ℕ
char_index c = if ltb c 128 then c else c + (2 ^ 64 - 256)

unfoldable pub join : Option (List ℕ) → Option (List ℕ) → Option (List ℕ)
join (some a) (some b) = some (a ++ b)
join none b = none
join (some a) none = none

-- HexMem and HexStr of a string, where the characters are of type `char`.
unfoldable pub hex_str : List ℕ → Option (List ℕ)
unfolding hexbyte char_index join
hex_str [] = some []
hex_str (c ∷ s) = join (hexbyte (char_index c)) (hex_str s)

-- HexStr of a pointer and a length, where they are of type `unsigned char`.
unfoldable pub hex_bytes : List ℕ → Option (List ℕ)
unfolding hexbyte join
hex_bytes [] = some []
hex_bytes (c ∷ s) = join (hexbyte c) (hex_bytes s)

-- The value of a digit, and of a text of digits.
unfoldable pub value : ℕ → ℕ
value d = if ltb d 97 then d - 48 else d - 87

unfoldable pub bytes : List ℕ → List ℕ
unfolding value
bytes [] = []
bytes (h ∷ []) = []
bytes (h ∷ l ∷ s) = let rest = bytes s in (value h * 16 + value l) ∷ rest

value-digit : (i : ℕ) → i < 16 → value (digit i) ≡ i
unfolding value digit
value-digit i h = grind arith

module _ (c : ℕ) (h : c < 256) where
  hexbyte_in : hexbyte c ≡ some (digit (c / 16) ∷ digit (c % 16) ∷ [])
  unfolding hexbyte
  hexbyte_in = let b : ltb c 256 ≡ true = ground arith in rw b refl

  byte_of : value (digit (c / 16)) * 16 + value (digit (c % 16)) ≡ c
  byte_of =
      rw (value-digit (c / 16) (omega (arith, h)), value-digit (c % 16) (omega arith)) (omega arith)

-- HexStr of bytes gives two digits for each, and their values are the bytes.
pub bytes-hex_bytes :
    (s : List ℕ)
    → All (λ c. c < 256) s
    → (t : List ℕ) × (hex_bytes s ≡ some t) × (bytes t ≡ s) × (length t ≡ 2 * length s)
unfolding hex_bytes bytes
bytes-hex_bytes [] h = ([], refl, refl, refl)
bytes-hex_bytes (c ∷ s) (h, hs) =
    let (t, e, b, l) = bytes-hex_bytes s hs in
    (
      digit (c / 16) ∷ digit (c % 16) ∷ t,
      rw (hexbyte_in c h, e) (unfold join in refl),
      rw (byte_of c h, b) refl,
      omega (arith, l),
    )

-- The text of a string with a character from 128 on.
beyond : (c : ℕ) → 128 ≤ c → c < 256 → hexbyte (char_index c) ≡ none
unfolding hexbyte char_index
beyond c h h' =
    let b : ltb c 128 ≡ false = ground arith in
    let d : ltb (c + (2 ^ 64 - 256)) 256 ≡ false = ground arith in rw (b, d) refl

within : (c : ℕ) → c < 128 → char_index c ≡ c
unfolding char_index
within c h = ground arith

join-none : (o : Option (List ℕ)) → join o none ≡ none
unfolding join
join-none none = refl
join-none (some a) = refl

-- HexStr of a string of characters below 128 is that of the bytes; with any other character it goes
-- out of its table.
pub hex_str_lem :
    (s : List ℕ)
    → (All (λ c. c < 128) s → hex_str s ≡ hex_bytes s)
      × ((c : ℕ) (t : List ℕ) → 128 ≤ c → c < 256 → hex_str (s ++ (c ∷ t)) ≡ none)
unfolding hex_str hex_bytes
hex_str_lem [] = (λ h. refl, λ c t h h'. rw (beyond c h h') (unfold join in refl))
hex_str_lem (d ∷ s) =
    let (small, large) = hex_str_lem s in
    (
      λ h. rw (within d h.0, small h.1) refl,
      λ c t h h'. rw (large c t h h') (join-none (hexbyte (char_index d))),
    )
