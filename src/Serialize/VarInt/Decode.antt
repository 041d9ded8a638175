-- ===== src/Serialize/VarInt/Decode.antt =====
-- ReadVarInt on what WriteVarInt wrote.
use huicpp.Base.{
  ℕ, zero, suc, ◌+◌, ◌-◌, ◌*◌, ◌/◌, ◌%◌, ◌^◌, ◌<◌, ◌≤◌, ◌≡◌, ◌∙◌, arith, List, ◌∷◌, ◌++◌, length,
  append_assoc, ltb, Bool-cases, inl, inr, some, ltb→lt,
}
use huicpp.Base.Bits.{low_bits, top_bit}
use huicpp.Serialize.Stream.{IStream, Delivers, Reads}
use huicpp.Serialize.Bytes.{read_data, read_data-Reads}
use huicpp.Serialize.VarInt.{IntType, modulus, read_var_int_loop, read_var_int}
use huicpp.Serialize.VarInt.Encode.{groups, var_int_bytes, one_byte, below_modulus, length-reverse}
use mathlib.Core.List.{reverse, reverse-cons}
use native.Mathlib.Nat.{pow-suc}

module _ {S : Type 0} (is : IStream S) {At : S → List ℕ → Type 0} (d : Delivers is At)
    (I : IntType) where
  read_byte :
      (s : S) (b : ℕ) (rest : List ℕ)
      → b < 256
      → At s (b ∷ rest)
      → (s' : S) × (read_data is 1 s ≡ some (b, s')) × At s' rest
  read_byte s b rest h at' =
      (read_data-Reads is d 1 b (omega arith)).run s rest (rw (one_byte b h) at')

  -- A group with the continuation bit.
  inner_byte :
      (fuel acc g m : ℕ) (s : S) (rest : List ℕ)
      → g < 128
      → m ≡ acc * 128 + g + 1
      → m < modulus I
      → At s ((g + 128) ∷ rest)
      → (s' : S) × (read_var_int_loop is I (suc fuel) acc s ≡ read_var_int_loop is I fuel m s')
        × At s' rest
  unfolding read_var_int_loop
  inner_byte fuel acc g m s rest hg hm hI at' =
      let (s', e, at'') = read_byte s (g + 128) rest (omega arith) at' in
      (s', ground (arith, e, low_bits (g + 128), top_bit (g + 128)), at'')

  last_byte :
      (fuel acc g m : ℕ) (s : S) (rest : List ℕ)
      → g < 128
      → m ≡ acc * 128 + g
      → m < modulus I
      → At s (g ∷ rest)
      → (s' : S) × (read_var_int_loop is I (suc fuel) acc s ≡ some (m, s')) × At s' rest
  unfolding read_var_int_loop
  last_byte fuel acc g m s rest hg hm hI at' =
      let (s', e, at'') = read_byte s g rest (omega arith) at' in
      (s', ground (arith, e, low_bits g, top_bit g), at'')

  -- The groups below a larger number, all with the continuation bit, leave `n + 1` in `acc`.
  inner_groups :
      (k f n : ℕ) (s : S) (rest : List ℕ)
      → n < 128 ^ suc k
      → n + 1 < modulus I
      → At s (reverse (groups k 128 n) ++ rest)
      → (s' : S) × (read_var_int_loop is I (length (groups k 128 n) + f) 0 s
          ≡ read_var_int_loop is I f (n + 1) s')
        × At s' rest
  unfolding groups
  inner_groups zero f n s rest h hm at' =
      let e : 1 + f ≡ suc f = omega arith in
      rw e (inner_byte f 0 n (n + 1) s rest (omega arith) (omega arith) hm at')
  inner_groups (suc k) f n s rest h hm at' = elim (Bool-cases (ltb 0x7f n)) [
    | inr c ↦
        let e : 1 + f ≡ suc f = omega arith in
        rw (c, e) (inner_byte f 0 n (n + 1) s rest (ground arith) (omega arith) hm (rw c at at'))
    | inl c ↦
        let n' = n / 128 - 1 in
        let x = n % 128 + 128 in
        let big : 0x7f < n = ltb→lt _ _ c in
        let (s₁, e₁, at₁) =
          inner_groups k (suc f) n' s (x ∷ rest) (omega (arith, pow-suc 128 (suc k))) (omega arith)
            (rw (c, reverse-cons, append_assoc) at at') in
        let (s₂, e₂, at₂) =
          inner_byte f (n' + 1) (n % 128) (n + 1) s₁ rest (omega arith) (omega arith) hm at₁ in
        let e : length (x ∷ groups k 128 n') + f ≡ length (groups k 128 n') + suc f = omega arith in
        (s₂, rw (c, e) (e₁ ∙ e₂), at₂)
  ]

  last_groups :
      (k f n : ℕ) (s : S) (rest : List ℕ)
      → n < 128 ^ suc k
      → n < modulus I
      → At s (reverse (groups k 0 n) ++ rest)
      → (s' : S) × (read_var_int_loop is I (length (groups k 0 n) + f) 0 s ≡ some (n, s'))
        × At s' rest
  unfolding groups
  last_groups zero f n s rest h hm at' =
      let e : 1 + f ≡ suc f = omega arith in
      let e₀ : n + 0 ≡ n = omega arith in
      rw e (last_byte f 0 n n s rest (omega arith) (omega arith) hm (rw e₀ at at'))
  last_groups (suc k) f n s rest h hm at' = elim (Bool-cases (ltb 0x7f n)) [
    | inr c ↦
        let e : 1 + f ≡ suc f = omega arith in
        let e₀ : n + 0 ≡ n = omega arith in
        rw (c, e) (last_byte f 0 n n s rest (ground arith) (omega arith) hm (rw (c, e₀) at at'))
    | inl c ↦
        let n' = n / 128 - 1 in
        let x = n % 128 + 0 in
        let big : 0x7f < n = ltb→lt _ _ c in
        let (s₁, e₁, at₁) =
          inner_groups k (suc f) n' s (x ∷ rest) (omega (arith, pow-suc 128 (suc k))) (omega arith)
            (rw (c, reverse-cons, append_assoc) at at') in
        let (s₂, e₂, at₂) = last_byte f (n' + 1) x n s₁ rest (omega arith) (omega arith) hm at₁ in
        let e : length (x ∷ groups k 128 n') + f ≡ length (groups k 128 n') + suc f = omega arith in
        (s₂, rw (c, e) (e₁ ∙ e₂), at₂)
  ]

  -- ReadVarInt gives back what WriteVarInt wrote, if it may take as many bytes.
  pub read_var_int-Reads :
      (fuel n : ℕ)
      → n < modulus I
      → length (var_int_bytes n) ≤ fuel
      → Reads At (read_var_int is I fuel) (var_int_bytes n) n
  unfolding var_int_bytes read_var_int
  read_var_int-Reads fuel n h hf = record { run = go }
    where
      len : ℕ
      len = length (groups 9 0 n)

      enough : fuel ≡ len + (fuel - len)
      enough = omega (arith, length-reverse (groups 9 0 n))

      go :
          (s : S) (rest : List ℕ)
          → At s (reverse (groups 9 0 n) ++ rest)
          → (s' : S) × (read_var_int_loop is I fuel 0 s ≡ some (n, s')) × At s' rest
      go s rest at' = rw enough (last_groups 9 (fuel - len) n s rest (below_modulus I n h) h at')
