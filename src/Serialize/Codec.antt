-- ===== src/Serialize/Codec.antt =====
-- src/hserialize.h: the interface of the templates GetSerializeSize, Serialize and Unserialize at one
-- type, and their overloads for the fundamental types, bool, VARINT and std::pair.
use huicpp.Base.{
  ℕ, ◌+◌, ◌*◌, ◌/◌, ◌%◌, ◌^◌, ◌<◌, ◌≡◌, arith, List, ◌++◌, length, Bool, true, false, not, ◌==◌,
  if◌then◌else◌, length-append,
}
use huicpp.Serialize.Stream.{
  OStream, IStream, Delivers, Reader, Reads, Reads-bind, Reads-map, Writes, Writes-seq, ◌>>=◌,
  return,
}
use huicpp.Serialize.Bytes.{
  object_bytes, length-object_bytes, write_data, read_data, write_data-Writes, read_data-Reads,
}
use huicpp.Serialize.VarInt.{IntType, size_of, get_size_of_var_int, write_var_int, read_var_int}

-- size_t addition and multiplication
abbrev pub add_size : ℕ → ℕ → ℕ
add_size a b = (a + b) % 2 ^ 64

-- The three templates at the type `A`, on the streams `S` and `T`.
pub record Codec (S T A : Type 0) : Type 0 where
  pub get_serialize_size : A → ℕ
  pub serialize : S → A → S
  pub unserialize : Reader T A

-- The three agree on one encoding: `serialize` writes it, `get_serialize_size` is its length, and
-- `unserialize` takes it, and no more, and gives back the value. `Fits` bounds the values.
pub record Correct {S T A : Type 0} (os : OStream S) (At : T → List ℕ → Type 0) (c : Codec S T A)
    (Fits : A → Type 0) (encode : A → List ℕ) : Type 0 where
  pub sizes : (a : A) → Fits a → c.get_serialize_size a ≡ length (encode a) % 2 ^ 64
  pub writes : (a : A) → Fits a → Writes os (λ s. c.serialize s a) (encode a)
  pub reads : (a : A) → Fits a → Reads At c.unserialize (encode a) a

module _ {S T : Type 0} (os : OStream S) (is : IStream T) where
  -- A fundamental type of `w` bytes.
  unfoldable pub fundamental : ℕ → Codec S T ℕ
  fundamental w = record {
    get_serialize_size = λ a. w;
    serialize = write_data os w;
    unserialize = read_data is w;
  }

  -- bool goes as a char.
  unfoldable pub boolean : Codec S T Bool
  boolean = record {
    get_serialize_size = λ a. 1;
    serialize = λ s a. write_data os 1 s (if a then 1 else 0);
    unserialize = (do f ← read_data is 1; return (not (f == 0)));
  }

  -- VARINT(obj), with the entries of `tmp` as the bound on the bytes read.
  unfoldable pub var_int : IntType → Codec S T ℕ
  var_int I = record {
    get_serialize_size = get_size_of_var_int;
    serialize = write_var_int os;
    unserialize = read_var_int is I ((size_of I * 8 + 6) / 7);
  }

-- The pair of two types: one after the other.
unfoldable pub pair : {S T A B : Type 0} → Codec S T A → Codec S T B → Codec S T (A × B)
pair c d = record {
  get_serialize_size = λ p. add_size (c.get_serialize_size p.0) (d.get_serialize_size p.1);
  serialize = λ s p. d.serialize (c.serialize s p.0) p.1;
  unserialize = (do a ← c.unserialize; b ← d.unserialize; return (a, b));
}

unfoldable pub bool_byte : Bool → List ℕ
bool_byte b = object_bytes 1 (if b then 1 else 0)

module _ {S T : Type 0} (os : OStream S) (is : IStream T) {At : T → List ℕ → Type 0}
    (del : Delivers is At) where
  pub fundamental-Correct :
      (w : ℕ) → w < 2 ^ 64 → Correct os At (fundamental os is w) (λ v. v < 256 ^ w) (object_bytes w)
  unfolding fundamental
  fundamental-Correct w h = record {
    sizes = λ a p. omega (arith, length-object_bytes w a);
    writes = λ a p. write_data-Writes os w a;
    reads = λ a p. read_data-Reads is del w a p;
  }

  pub boolean-Correct : Correct os At (boolean os is) (λ b. Unit {0}) bool_byte
  unfolding boolean bool_byte
  boolean-Correct = record {
    sizes = λ a p. omega (arith, length-object_bytes 1 (if a then 1 else 0));
    writes = λ a p. write_data-Writes os 1 (if a then 1 else 0);
    reads = λ a p. read a;
  }
    where
      read :
          (a : Bool)
          → Reads At
              (do f ← read_data is 1; return (not (f == 0)))
              (object_bytes 1 (if a then 1 else 0))
              a
      read true = Reads-map (λ f. not (f == 0)) (read_data-Reads is del 1 1 (omega arith))
      read false = Reads-map (λ f. not (f == 0)) (read_data-Reads is del 1 0 (omega arith))

module _ {S T A B : Type 0} {os : OStream S} {At : T → List ℕ → Type 0} {c : Codec S T A}
    {d : Codec S T B} {FitsA : A → Type 0} {FitsB : B → Type 0} {ea : A → List ℕ}
    {eb : B → List ℕ} where
  pub pair-Correct :
      Correct os At c FitsA ea
      → Correct os At d FitsB eb
      → Correct os At (pair c d) (λ p. FitsA p.0 × FitsB p.1) (λ p. ea p.0 ++ eb p.1)
  unfolding pair
  pair-Correct p q = record {
    sizes = λ v h. omega (arith, p.sizes v.0 h.0, q.sizes v.1 h.1, length-append (ea v.0) (eb v.1));
    writes = λ v h. Writes-seq (p.writes v.0 h.0) (q.writes v.1 h.1);
    reads = λ v h. Reads-bind _ (p.reads v.0 h.0) (Reads-map (λ b. (v.0, b)) (q.reads v.1 h.1));
  }
