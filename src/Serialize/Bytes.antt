-- ===== src/Serialize/Bytes.antt =====
-- src/hserialize.h, WRITEDATA and READDATA: the object representation of the fundamental types.
-- A value of a `w`-byte type is its bit pattern, a number below 256 ^ w; the targets of the library
-- are little-endian, so the lowest byte comes first.
use huicpp.Base.{
  ℕ, zero, suc, ◌+◌, ◌*◌, ◌/◌, ◌%◌, ◌^◌, ◌<◌, ◌≡◌, refl, ap, ◌∙◌, arith, List, [], ◌∷◌, ◌++◌,
  length, some,
}
use huicpp.Serialize.Stream.{OStream, IStream, Delivers, Reader, Reads, Writes, Writes-one}
use native.Mathlib.Nat.{pow-suc}

-- the `w` bytes of an object
unfoldable pub object_bytes : ℕ → ℕ → List ℕ
object_bytes zero v = []
object_bytes (suc w) v = (v % 256) ∷ object_bytes w (v / 256)

unfoldable pub object_value : List ℕ → ℕ
object_value [] = 0
object_value (b ∷ bs) = b + 256 * object_value bs

pub length-object_bytes : (w v : ℕ) → length (object_bytes w v) ≡ w
unfolding object_bytes
length-object_bytes zero v = refl
length-object_bytes (suc w) v = ap suc (length-object_bytes w (v / 256))

pub object_value-object_bytes : (w v : ℕ) → v < 256 ^ w → object_value (object_bytes w v) ≡ v
unfolding object_bytes object_value
object_value-object_bytes zero v h = omega arith
object_value-object_bytes (suc w) v h =
    omega
      (arith, pow-suc 256 w, object_value-object_bytes w (v / 256) (omega (arith, pow-suc 256 w)))

module _ {S : Type 0} (os : OStream S) where
  -- WRITEDATA(s, obj), at an object of `w` bytes
  unfoldable pub write_data : ℕ → S → ℕ → S
  write_data w s v = os.write s (object_bytes w v)

  pub write_data-Writes : (w v : ℕ) → Writes os (λ s. write_data w s v) (object_bytes w v)
  unfolding write_data
  write_data-Writes w v = Writes-one (object_bytes w v)

module _ {S : Type 0} (is : IStream S) where
  -- READDATA(s, obj)
  unfoldable pub read_data : ℕ → Reader S ℕ
  read_data w s = let (bs, s') = is.read s w in some (object_value bs, s')

  pub read_data-Reads :
      {At : S → List ℕ → Type 0}
      → Delivers is At
      → (w v : ℕ) → v < 256 ^ w
      → Reads At (read_data w) (object_bytes w v) v
  unfolding read_data
  read_data-Reads {At} d w v h = record { run = go }
    where
      go :
          (s : S) (rest : List ℕ)
          → At s (object_bytes w v ++ rest)
          → (s' : S) × (read_data w s ≡ some (v, s')) × At s' rest
      go s rest at =
          let (e, at') =
            rw (length-object_bytes w v) at (d.read_bytes s (object_bytes w v) rest at) in
          (
            (is.read s w).1,
            ap (λ l. some (object_value l, (is.read s w).1)) e
                ∙ ap (λ n. some (n, (is.read s w).1)) (object_value-object_bytes w v h),
            at',
          )
