-- ===== src/Serialize/RoundTrip.antt =====
-- The templates of src/hserialize.h on the streams that the file itself implements.
use huicpp.Base.{
  ℕ, ◌+◌, ◌^◌, ◌<◌, ◌≡◌, refl, ◌∙◌, ap, arith, List, [], ◌∷◌, ◌++◌, length, some, append-nil,
  length-append, drop-append_left,
}
use huicpp.Serialize.Stream.{OStream, IStream, Delivers, written-Writes, write_all, Writes}
use huicpp.Serialize.Codec.{Codec, Correct}
use huicpp.Serialize.DataStream.{
  DataStream, SizeComputer, data_ostream, data_istream, size_computer, str, write,
}
use huicpp.Serialize.DataStream.Laws.{
  Unread, data_stream-Appends, data_stream-Delivers, size_computer-Writes,
}

-- Writing leaves the read position where it is.
write_all-read_pos :
    (s : DataStream) (cs : List (List ℕ)) → (write_all data_ostream s cs).read_pos ≡ s.read_pos
unfolding write
write_all-read_pos s [] = refl
write_all-read_pos s (c ∷ cs) = write_all-read_pos (write s c) cs

-- What is written to a stream joins the bytes that are still to be read.
write-Unread :
    {w : DataStream → DataStream} {bytes l : List ℕ} (s : DataStream)
    → Writes data_ostream w bytes
    → Unread s l
    → length s.vch + length bytes < 2 ^ 32
    → Unread (w s) (l ++ bytes)
unfolding str
write-Unread {w} {bytes} {l} s p u h =
    let e : (w s).vch ≡ s.vch ++ bytes = written-Writes data_stream-Appends p s in
    let e' : (w s).read_pos ≡ s.read_pos =
      ap (λ (t : DataStream). t.read_pos) (p.run s) ∙ write_all-read_pos s p.chunks in
    ground (
      arith,
      e,
      e',
      u.content,
      u.valid.inside,
      length-append s.vch bytes,
      drop-append_left s.read_pos s.vch bytes,
    )

-- A type whose templates are correct on every stream that delivers its bytes: `stream << a` and then
-- `stream >> b`, on a CDataStream that holds nothing unread: `b` is `a`, and again nothing is unread, if
-- the buffer stays below 2 ^ 32 bytes.
pub data_stream_round_trip :
    {A : Type 0} {Fits : A → Type 0} {encode : A → List ℕ}
    → (codec : (S T : Type 0) → OStream S → IStream T → Codec S T A)
    → ((S T : Type 0) (os : OStream S) (is : IStream T) (At : T → List ℕ → Type 0)
        → Delivers is At
        → Correct os At (codec S T os is) Fits encode)
    → (s : DataStream) (a : A) → Fits a
    → Unread s []
    → length s.vch + length (encode a) < 2 ^ 32
    → let c = codec DataStream DataStream data_ostream data_istream in
      (s' : DataStream) × (c.unserialize (c.serialize s a) ≡ some (a, s')) × Unread s' []
data_stream_round_trip {encode} codec correct s a fits u h =
    let p = correct DataStream DataStream data_ostream data_istream Unread data_stream-Delivers in
    (p.reads a fits).run _ [] (rw (append-nil (encode a)) (write-Unread s (p.writes a fits) u h))

-- `GetSerializeSize(a)` is what CSizeComputer counts for the serialization of `a`.
pub size_computer-get_serialize_size :
    {T A : Type 0} {At : T → List ℕ → Type 0} {c : Codec SizeComputer T A} {Fits : A → Type 0}
    {encode : A → List ℕ}
    → Correct size_computer At c Fits encode
    → (a : A) → Fits a
    → (c.serialize (record { n_size = 0 }) a).n_size ≡ c.get_serialize_size a
size_computer-get_serialize_size p a fits =
    let zero_count : SizeComputer = record { n_size = 0 } in
    omega (arith, size_computer-Writes (p.writes a fits) zero_count (omega arith), p.sizes a fits)
