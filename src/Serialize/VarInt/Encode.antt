-- ===== src/Serialize/VarInt/Encode.antt =====
-- What GetSizeOfVarInt and WriteVarInt compute, in plain arithmetic.
use huicpp.Base.{
  ℕ, zero, suc, ◌+◌, ◌-◌, ◌*◌, ◌/◌, ◌%◌, ◌^◌, ◌<◌, ◌≤◌, ◌≡◌, refl, ap, ◌∙◌, arith, List, [], ◌∷◌,
  ◌++◌, length, length-append, All, ltb, if◌then◌else◌, bit_or, append_assoc, ◌==◌,
}
use huicpp.Base.Bits.{bit_or-zero, set_top_bit}
use huicpp.Base.Order.{lt_wf}
use huicpp.Serialize.Stream.{OStream, Writes, Writes-seq, Writes-skip}
use huicpp.Serialize.Bytes.{object_bytes, write_data-Writes}
use huicpp.Serialize.VarInt.{
  IntType, uch, usn, un, ull, size_of, modulus, size_of_var_int_loop, get_size_of_var_int, fill_tmp,
  write_down, write_var_int,
}
use mathlib.Core.List.{reverse, reverse-cons}
use mathlib.Core.WellFounded.{Acc}
use native.Mathlib.Nat.{pow-suc}

-- The groups of `n`, lowest first; `flag` is added to the first, and 128 to each other. The number
-- bounds the groups after the first.
unfoldable pub groups : ℕ → ℕ → ℕ → List ℕ
groups zero flag n = (n + flag) ∷ []
groups (suc k) flag n =
    let rest = groups k 128 (n / 128 - 1) in
    if ltb 0x7f n then (n % 128 + flag) ∷ rest else (n + flag) ∷ []

-- The encoding of a value of any of the types: the highest group first.
unfoldable pub var_int_bytes : ℕ → List ℕ
var_int_bytes n = reverse (groups 9 0 n)

pub length-groups : (k j flag n : ℕ) → n < 128 ^ suc k → length (groups j flag n) ≤ k + 1
unfolding groups
length-groups k zero flag n h = omega arith
length-groups zero (suc j) flag n h = ground arith
length-groups (suc k) (suc j) flag n h =
    ground (arith, pow-suc 128 (suc k), length-groups k j 128 (n / 128 - 1))

pub length-reverse : (xs : List ℕ) → length (reverse xs) ≡ length xs
length-reverse [] = refl
length-reverse (x ∷ xs) =
    rw reverse-cons (omega (arith, length-append (reverse xs) (x ∷ []), length-reverse xs))

pub one_byte : (b : ℕ) → b < 256 → object_bytes 1 b ≡ b ∷ []
unfolding object_bytes
one_byte b h = ap (λ c. c ∷ []) (omega arith)

pub groups-bytes :
    (k flag n : ℕ) → flag ≤ 128 → n < 128 ^ suc k → All (λ b. b < 256) (groups k flag n)
unfolding groups
groups-bytes zero flag n hf h = omega arith
groups-bytes (suc k) flag n hf h =
    ground (arith, pow-suc 128 (suc k), groups-bytes k 128 (n / 128 - 1))

size_of_var_int_loop-groups :
    (k r flag n : ℕ) (w : Acc ◌<◌ n)
    → n < 128 ^ suc k
    → size_of_var_int_loop r n w ≡ r + length (groups k flag n)
unfolding size_of_var_int_loop groups
size_of_var_int_loop-groups zero r flag n (Acc.intro _ smaller) h = ground arith
size_of_var_int_loop-groups (suc k) r flag n (Acc.intro _ smaller) h = grind (
  arith,
  pow-suc 128 (suc k),
  λ (w : Acc ◌<◌ (n / 128 - 1)). size_of_var_int_loop-groups k (r + 1) 128 (n / 128 - 1) w,
)

-- What the flag of the next entry of `tmp` adds to it.
abbrev flag_of : List ℕ → ℕ
flag_of [] = 0
flag_of (b ∷ bs) = 128

group_byte :
    (g : ℕ) (tmp : List ℕ)
    → g < 128
    → bit_or g (if length tmp == 0 then 0x00 else 0x80) ≡ g + flag_of tmp
group_byte g [] h = bit_or-zero g h ∙ omega arith
group_byte g (b ∷ tmp) h = ground (arith, set_top_bit g h)

flag_of-append : (tmp : List ℕ) (b : ℕ) → flag_of (tmp ++ (b ∷ [])) ≡ 128
flag_of-append [] b = refl
flag_of-append (x ∷ tmp) b = refl

fill_tmp-groups :
    (k : ℕ) (tmp : List ℕ) (n : ℕ) (w : Acc ◌<◌ n)
    → n < 128 ^ suc k
    → fill_tmp tmp n w ≡ tmp ++ groups k (flag_of tmp) n
unfolding fill_tmp groups
fill_tmp-groups zero tmp n (Acc.intro _ smaller) h = ground (arith, group_byte (n % 128) tmp)
fill_tmp-groups (suc k) tmp n (Acc.intro _ smaller) h =
    let head : List ℕ = (n % 128 + flag_of tmp) ∷ [] in
    grind (
      arith,
      pow-suc 128 (suc k),
      group_byte (n % 128) tmp,
      flag_of-append tmp (n % 128 + flag_of tmp),
      λ (w : Acc ◌<◌ (n / 128 - 1)). fill_tmp-groups k (tmp ++ head) (n / 128 - 1) w,
      append_assoc tmp head (groups k 128 (n / 128 - 1)),
    )

-- On a value of 70 bits at most, GetSizeOfVarInt gives the number of bytes of the encoding.
pub get_size_of_var_int-length :
    (n : ℕ) → n < 128 ^ 10 → get_size_of_var_int n ≡ length (var_int_bytes n)
unfolding get_size_of_var_int var_int_bytes
get_size_of_var_int-length n h =
    omega
      (arith, size_of_var_int_loop-groups 9 0 0 n (lt_wf.apply n) h, length-reverse (groups 9 0 n))

module _ {S : Type 0} (os : OStream S) where
  write_down-Writes :
      (bs : List ℕ) → All (λ b. b < 256) bs → Writes os (λ s. write_down os s bs) (reverse bs)
  unfolding write_down
  write_down-Writes [] h = Writes-skip
  write_down-Writes (b ∷ bs) (hb, hbs) =
      rw reverse-cons
        (rw (one_byte b hb) at (Writes-seq (write_down-Writes bs hbs) (write_data-Writes os 1 b)))

  pub write_var_int-Writes :
      (n : ℕ) → n < 128 ^ 10 → Writes os (λ s. write_var_int os s n) (var_int_bytes n)
  unfolding write_var_int var_int_bytes
  write_var_int-Writes n h =
      rw (fill_tmp-groups 9 [] n (lt_wf.apply n) h)
        (write_down-Writes (groups 9 0 n) (groups-bytes 9 0 n (omega arith) h))

pub below_modulus : (I : IntType) (n : ℕ) → n < modulus I → n < 128 ^ 10
below_modulus uch n h = omega arith
below_modulus usn n h = omega arith
below_modulus un n h = omega arith
below_modulus ull n h = omega arith

-- The bytes of a value of the type `I` fit the room of `tmp`, (sizeof(n) * 8 + 6) / 7.
pub length-var_int_bytes-le :
    (I : IntType) (n : ℕ) → n < modulus I → length (var_int_bytes n) ≤ (size_of I * 8 + 6) / 7
unfolding var_int_bytes
length-var_int_bytes-le uch n h =
    omega (arith, length-reverse (groups 9 0 n), length-groups 1 9 0 n (omega arith))
length-var_int_bytes-le usn n h =
    omega (arith, length-reverse (groups 9 0 n), length-groups 2 9 0 n (omega arith))
length-var_int_bytes-le un n h =
    omega (arith, length-reverse (groups 9 0 n), length-groups 4 9 0 n (omega arith))
length-var_int_bytes-le ull n h =
    omega (arith, length-reverse (groups 9 0 n), length-groups 9 9 0 n (omega arith))

-- WriteVarInt makes no more entries of `tmp` than its declaration has room for, and as many as
-- GetSizeOfVarInt says.
pub length-fill_tmp :
    (I : IntType) (n : ℕ)
    → n < modulus I
    → (length (fill_tmp [] n (lt_wf.apply n)) ≡ get_size_of_var_int n)
      × (get_size_of_var_int n ≤ (size_of I * 8 + 6) / 7)
unfolding var_int_bytes
length-fill_tmp I n h =
    let b = below_modulus I n h in
    let e = fill_tmp-groups 9 [] n (lt_wf.apply n) b in
    let len : length (fill_tmp [] n (lt_wf.apply n)) ≡ length (groups 9 0 n) =
      ap (λ l. length l) e in
    omega (
      arith,
      len,
      get_size_of_var_int-length n b,
      length-reverse (groups 9 0 n),
      length-var_int_bytes-le I n h,
    )
