-- ===== src/Serialize/VarInt.antt =====
-- src/hserialize.h, GetSizeOfVarInt, WriteVarInt and ReadVarInt, at the unsigned types.
pub mod Encode
pub mod Decode
use huicpp.Base.{
  ℕ, zero, suc, ◌+◌, ◌-◌, ◌*◌, ◌/◌, ◌%◌, ◌^◌, ◌<◌, arith, bit_and, bit_or, List, [], ◌∷◌, ◌++◌,
  length, none, ◌==◌, if◌then◌else◌,
}
use huicpp.Base.Order.{lt_wf}
use huicpp.Serialize.Stream.{OStream, IStream, Reader, ◌>>=◌, return}
use huicpp.Serialize.Bytes.{write_data, read_data}
use mathlib.Core.Logic.{dite}
use mathlib.Core.WellFounded.{Acc}
use native.Mathlib.Decide.{dec_lt}

-- The type argument `I`.
pub data IntType : Type 0 where
  uch usn un ull : IntType

-- sizeof(I)
abbrev pub size_of : IntType → ℕ
size_of uch = 1
size_of usn = 2
size_of un = 4
size_of ull = 8

-- the values of `I` are the numbers below it
abbrev pub modulus : IntType → ℕ
modulus uch = 2 ^ 8
modulus usn = 2 ^ 16
modulus un = 2 ^ 32
modulus ull = 2 ^ 64

pub next_shrinks : (n : ℕ) → 0x7f < n → n / 128 - 1 < n
next_shrinks n h = omega arith

-- `n_ret` counts the rounds; `n = (n >> 7) - 1` runs only above 0x7F.
size_of_var_int_loop : ℕ → (n : ℕ) → Acc ◌<◌ n → ℕ
size_of_var_int_loop n_ret n (Acc.intro _ smaller) =
    dite (dec_lt 0x7f n)
      (λ more. size_of_var_int_loop (n_ret + 1) (n / 128 - 1) (smaller _ (next_shrinks n more)))
      (λ _. n_ret + 1)

unfoldable pub get_size_of_var_int : ℕ → ℕ
unfolding size_of_var_int_loop lt_wf dec_lt
get_size_of_var_int n = size_of_var_int_loop 0 n (lt_wf.apply n)

-- The first loop of WriteVarInt: `tmp` holds the entries up to `len`, and `len` is its length.
pub fill_tmp : List ℕ → (n : ℕ) → Acc ◌<◌ n → List ℕ
fill_tmp tmp n (Acc.intro _ smaller) =
    let group = bit_or (n % 128) (if length tmp == 0 then 0x00 else 0x80) in
    dite (dec_lt 0x7f n)
      (λ more. fill_tmp (tmp ++ (group ∷ [])) (n / 128 - 1) (smaller _ (next_shrinks n more)))
      (λ _. tmp ++ (group ∷ []))

module _ {S : Type 0} (os : OStream S) where
  -- The second loop writes from the last entry of `tmp` down to the first.
  write_down : S → List ℕ → S
  write_down s [] = s
  write_down s (b ∷ bs) = write_data os 1 (write_down s bs) b

  unfoldable pub write_var_int : S → ℕ → S
  unfolding write_down fill_tmp lt_wf dec_lt
  write_var_int s n = write_down s (fill_tmp [] n (lt_wf.apply n))

module _ {S : Type 0} (is : IStream S) (I : IntType) where
  -- The loop of ReadVarInt, for at most `fuel` bytes. `n << 7` has no bit in common with the group.
  pub read_var_int_loop : ℕ → ℕ → Reader S ℕ
  read_var_int_loop zero n s = none
  read_var_int_loop (suc fuel) n s =
      (do
        ch ← read_data is 1
        let n' = (n * 128 + bit_and ch 0x7f) % modulus I
        let more = read_var_int_loop fuel ((n' + 1) % modulus I)
        if bit_and ch 0x80 == 0 then return n' else more)
        s

  unfoldable pub read_var_int : ℕ → Reader S ℕ
  unfolding read_var_int_loop
  read_var_int fuel = read_var_int_loop fuel 0
