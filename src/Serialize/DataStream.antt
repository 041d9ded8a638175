-- ===== src/Serialize/DataStream.antt =====
-- src/hserialize.h, CDataStream: a buffer that is read from the front and written at the end, and
-- CSizeComputer, the stream that only counts.
pub mod Laws
pub mod Ignore
use huicpp.Base.{
  ℕ, ◌+◌, ◌-◌, ◌%◌, ◌^◌, List, [], ◌∷◌, ◌++◌, Bool, true, false, ◌&&◌, ltb, leb, ◌==◌,
  if◌then◌else◌, length, take, drop, replicate, bit_or, not, get_elem?, Option,
}
use huicpp.Serialize.Stream.{OStream, IStream}

-- An iterator is an index into `vch`. A char is its bit pattern; so are `state` and `exceptmask`.
pub record DataStream : Type 0 where
  pub vch : List ℕ
  pub read_pos : ℕ
  pub state : ℕ
  pub exceptmask : ℕ

-- unsigned int addition, and size_t subtraction
abbrev add_u32 : ℕ → ℕ → ℕ
add_u32 a b = (a + b) % 2 ^ 32

abbrev sub_size : ℕ → ℕ → ℕ
sub_size a b = (a + 2 ^ 64 - b) % 2 ^ 64

-- The constructors. `exceptmask` is not initialized: it is what the storage holds.
unfoldable pub data_stream : ℕ → List ℕ → DataStream
data_stream mask bytes = record { vch = bytes; read_pos = 0; state = 0; exceptmask = mask }

-- `a += b`
unfoldable pub append_stream : DataStream → DataStream → DataStream
append_stream a b = record a { vch = a.vch ++ drop b.read_pos b.vch }

unfoldable pub str : DataStream → List ℕ
str s = drop s.read_pos s.vch

unfoldable pub size : DataStream → ℕ
size s = sub_size (length s.vch) s.read_pos

unfoldable pub empty : DataStream → Bool
empty s = length s.vch == s.read_pos

unfoldable pub resize : DataStream → ℕ → ℕ → DataStream
resize s n c =
    let m = n + s.read_pos in record s { vch = take m s.vch ++ replicate (m - length s.vch) c }

unfoldable pub at : DataStream → ℕ → Option ℕ
at s pos = get_elem? s.vch (pos + s.read_pos)

unfoldable pub clear : DataStream → DataStream
clear s = record s { vch = []; read_pos = 0 }

-- `vch.insert(it, first, last)`
abbrev insert_at : List ℕ → ℕ → List ℕ → List ℕ
insert_at v it xs = take it v ++ (xs ++ drop it v)

unfoldable pub insert : DataStream → ℕ → ℕ → DataStream
insert s it x = record s { vch = insert_at s.vch it (x ∷ []) }

unfoldable pub insert_n : DataStream → ℕ → ℕ → ℕ → DataStream
insert_n s it n x = record s { vch = insert_at s.vch it (replicate n x) }

-- At the front, if there is room, the bytes go over those that have been read.
unfoldable pub insert_range : DataStream → ℕ → List ℕ → DataStream
insert_range s it xs =
    if it == s.read_pos && leb (length xs % 2 ^ 32) s.read_pos
    then (let p = (s.read_pos + 2 ^ 32 - length xs % 2 ^ 32) % 2 ^ 32 in
        record s { vch = take p s.vch ++ (xs ++ drop (p + length xs) s.vch); read_pos = p })
    else record s { vch = insert_at s.vch it xs }

unfoldable pub erase : DataStream → ℕ → DataStream
erase s it =
    if it == s.read_pos
    then (if leb (length s.vch) (add_u32 s.read_pos 1)
        then record s { vch = []; read_pos = 0 }
        else record s { read_pos = add_u32 s.read_pos 1 })
    else record s { vch = take it s.vch ++ drop (it + 1) s.vch }

unfoldable pub erase_range : DataStream → ℕ → ℕ → DataStream
erase_range s first last =
    if first == s.read_pos
    then (if last == length s.vch
        then record s { vch = []; read_pos = 0 }
        else record s { read_pos = last % 2 ^ 32 })
    else record s { vch = take first s.vch ++ drop last s.vch }

unfoldable pub compact : DataStream → DataStream
compact s = record s { vch = drop s.read_pos s.vch; read_pos = 0 }

unfoldable pub rewind : DataStream → ℕ → DataStream × Bool
rewind s n = if ltb s.read_pos n then (s, false) else (record s { read_pos = s.read_pos - n }, true)

unfoldable pub setstate : DataStream → ℕ → DataStream
setstate s bits = record s { state = bit_or s.state bits }

unfoldable pub eof : DataStream → Bool
unfolding size
eof s = size s == 0

unfoldable pub good : DataStream → Bool
unfolding eof
good s = not (eof s) && s.state == 0

unfoldable pub clear_state : DataStream → ℕ → DataStream
clear_state s n = record s { state = n }

unfoldable pub set_exceptions : DataStream → ℕ → DataStream × ℕ
unfolding setstate
set_exceptions s mask = (setstate (record s { exceptmask = mask }) 0, s.exceptmask)

-- `read` gives the `n` bytes at `pch`. Bytes past the end of `vch` are not copied.
unfoldable pub read : DataStream → ℕ → List ℕ × DataStream
unfolding clear
read s n =
    let next = add_u32 s.read_pos n in
    let rest = drop s.read_pos s.vch in
    if leb (length s.vch) next
    then (if ltb (length s.vch) next
        then (let m = sub_size (length s.vch) s.read_pos in
            (take m rest ++ replicate (n - m) 0, clear s))
        else (take n rest, clear s))
    else (take n rest, record s { read_pos = next })

-- The inner `if` of the source governs the assignment `nReadPos = 0`, and that alone.
unfoldable pub ignore : DataStream → ℕ → DataStream
ignore s n =
    let next = add_u32 s.read_pos n in
    if leb (length s.vch) next
    then (let p = if ltb (length s.vch) next then 0 else s.read_pos in
        record s { vch = []; read_pos = p })
    else record s { read_pos = next }

unfoldable pub write : DataStream → List ℕ → DataStream
write s bs = record s { vch = s.vch ++ bs }

-- The whole buffer goes to the other stream, also what has been read of it.
unfoldable pub serialize : {S : Type 0} → OStream S → S → DataStream → S
serialize os s t = if length t.vch == 0 then s else os.write s t.vch

-- What `data` holds afterwards, and the stream.
unfoldable pub get_and_clear : DataStream → List ℕ → List ℕ × DataStream
unfolding clear str
get_and_clear s bytes = (bytes ++ str s, clear s)

abbrev pub data_ostream : OStream DataStream
data_ostream = record { write = write }

abbrev pub data_istream : IStream DataStream
data_istream = record { read = read }

-- CSizeComputer. `size_t` additions wrap.
pub record SizeComputer : Type 0 where
  pub n_size : ℕ

unfoldable pub count_write : SizeComputer → List ℕ → SizeComputer
count_write c bs = record { n_size = (c.n_size + length bs) % 2 ^ 64 }

abbrev pub size_computer : OStream SizeComputer
size_computer = record { write = count_write }
