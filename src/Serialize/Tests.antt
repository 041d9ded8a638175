-- ===== src/Serialize/Tests.antt =====
-- Concrete runs of the templates of src/hserialize.h, and the theorems at concrete inputs.
use huicpp.Base.{ℕ, ◌+◌, ◌^◌, ◌<◌, ◌≡◌, refl, arith, List, [], ◌∷◌, ◌++◌, length, ltb, All, some}
use huicpp.Serialize.Bytes.{object_bytes, write_data}
use huicpp.Serialize.CompactSize.{compact_size_bytes}
use huicpp.Serialize.VarInt.{write_var_int}
use huicpp.Serialize.DataStream.{
  DataStream, data_ostream, data_istream, write, str, SizeComputer, size_computer,
}
use huicpp.Serialize.DataStream.Laws.{IsValid, Unread, data_stream-Delivers}
use huicpp.Serialize.Stream.{OStream, IStream, Delivers}
use huicpp.Serialize.Codec.{Codec, Correct, fundamental, fundamental-Correct}
use huicpp.Serialize.Array.{basic_string, vector_fundamental, array_bytes, counted_array}
use huicpp.Serialize.Array.RoundTrip.{Holds, basic_string-Correct, vector_fundamental-Correct}
use huicpp.Serialize.Containers.{vector_class, map_of}
use huicpp.Serialize.Containers.Loops.{counted_bytes}
use huicpp.Serialize.Containers.RoundTrip.{IsOrdered, vector_class-Correct, map_of-Correct}
use huicpp.Serialize.RoundTrip.{data_stream_round_trip}

abbrev fresh : DataStream
fresh = record { vch = []; read_pos = 0; state = 0; exceptmask = 0 }

-- Five bytes, of which two have been read.
abbrev half_read : DataStream
half_read = record { vch = 1 ∷ 2 ∷ 3 ∷ 4 ∷ 5 ∷ []; read_pos = 2; state = 0; exceptmask = 0 }

half_read-IsValid : IsValid half_read
half_read-IsValid = omega arith

-- The table in the comment above the functions.
write_var_int_table :
    ((write_var_int data_ostream fresh 127).vch ≡ 0x7f ∷ [])
    × ((write_var_int data_ostream fresh 128).vch ≡ 0x80 ∷ 0x00 ∷ [])
    × ((write_var_int data_ostream fresh 16384).vch ≡ 0xff ∷ 0x00 ∷ [])
    × ((write_var_int data_ostream fresh (2 ^ 32)).vch ≡ 0x8e ∷ 0xfe ∷ 0xfe ∷ 0xff ∷ 0x00 ∷ [])
unfolding write_var_int write_data write object_bytes
write_var_int_table = (refl, refl, refl, refl)

fresh-Unread : Unread fresh []
unfolding str
fresh-Unread = record { valid = omega arith; content = refl }

-- std::string
string_codec :
    Correct data_ostream Unread
      (basic_string data_ostream data_istream 1)
      (Holds 1)
      (counted_array 1)
string_codec = basic_string-Correct data_ostream data_istream data_stream-Delivers 1

vector_fundamental-Correct_example :
    Correct data_ostream Unread
      (vector_fundamental data_ostream data_istream 8)
      (Holds 8)
      (counted_array 8)
vector_fundamental-Correct_example =
    vector_fundamental-Correct data_ostream data_istream data_stream-Delivers 8

-- std::vector<std::string>, with 32 for the size of a string object.
vector_class-Correct_example :
    Correct data_ostream Unread
      (vector_class (basic_string data_ostream data_istream 1) data_ostream data_istream 32)
      (λ xs. All (Holds 1) xs × (length xs + 5000000 < 2 ^ 32))
      (counted_bytes (counted_array 1))
vector_class-Correct_example =
    vector_class-Correct (basic_string data_ostream data_istream 1) string_codec data_istream 32
      data_stream-Delivers (omega arith) (omega arith)

-- std::map<unsigned int, std::string>
abbrev Names : Type 0
Names = List (ℕ × List ℕ)

abbrev names : Codec DataStream DataStream Names
names =
    map_of (fundamental data_ostream data_istream 4) (basic_string data_ostream data_istream 1) ltb
      data_ostream data_istream

abbrev NamesFit : Names → Type 0
NamesFit m =
    All (λ e. (e.0 < 256 ^ 4) × Holds 1 e.1) m
    × IsOrdered (λ p q. ltb p.0 q.0) m
    × (length m < 2 ^ 32)

map_of-Correct_example :
    Correct data_ostream Unread names NamesFit
      (counted_bytes (λ e. object_bytes 4 e.0 ++ counted_array 1 e.1))
map_of-Correct_example =
    map_of-Correct (fundamental data_ostream data_istream 4)
      (basic_string data_ostream data_istream 1) data_istream ltb data_stream-Delivers
      (fundamental-Correct data_ostream data_istream data_stream-Delivers 4 (omega arith))
      string_codec

abbrev two_names : Names
two_names = (7, 0x61 ∷ []) ∷ (300, 0x62 ∷ 0x63 ∷ []) ∷ []

-- The templates of the map on any streams.
abbrev names_on : (S T : Type 0) → OStream S → IStream T → Codec S T Names
names_on S T os is = map_of (fundamental os is 4) (basic_string os is 1) ltb os is

names_on-Correct :
    (S T : Type 0) (os : OStream S) (is : IStream T) (At : T → List ℕ → Type 0)
    → Delivers is At
    → Correct os At
        (names_on S T os is)
        NamesFit
        (counted_bytes (λ e. object_bytes 4 e.0 ++ counted_array 1 e.1))
names_on-Correct S T os is At del =
    map_of-Correct (fundamental os is 4) (basic_string os is 1) is ltb del
      (fundamental-Correct os is del 4 (omega arith)) (basic_string-Correct os is del 1)

data_stream_round_trip_example :
    (s' : DataStream) × (names.unserialize (names.serialize fresh two_names) ≡ some (two_names, s'))
    × Unread s' []
unfolding counted_bytes object_bytes compact_size_bytes array_bytes
data_stream_round_trip_example =
    data_stream_round_trip names_on names_on-Correct fresh two_names (ground arith) fresh-Unread
      (unfold counted_array in omega arith)

counted_name : Codec SizeComputer DataStream (List ℕ)
counted_name = basic_string size_computer data_istream 1
