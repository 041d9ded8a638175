-- ===== src/Serialize/DataStream/Ignore.antt =====
-- CDataStream::ignore, size, empty, Rewind, Compact and insert against the bytes still to be read.
use huicpp.Base.{
  ℕ, ◌+◌, ◌-◌, ◌^◌, ◌<◌, ◌≡◌, arith, List, ◌++◌, length, take, drop, length-append, length-drop,
  drop-drop, true, false, length-take, ◌==◌, drop-take_append,
}
use huicpp.Serialize.DataStream.{
  DataStream, str, size, empty, ignore, rewind, compact, insert_range, read,
}
use huicpp.Serialize.DataStream.Laws.{IsValid}

-- In a valid stream `size` is the number of bytes still to be read, and `empty` tests that it is 0.
pub size-str :
    {s : DataStream} → IsValid s → (size s ≡ length (str s)) × (empty s ≡ (length (str s) == 0))
unfolding size str empty
size-str {s} v = ground (arith, length-drop s.read_pos s.vch, v.inside, v.small)

-- Fewer bytes than there are: `ignore` skips them and the stream stays valid.
pub ignore-str :
    {s : DataStream} (n : ℕ)
    → IsValid s
    → n < length (str s)
    → IsValid (ignore s n) × (str (ignore s n) ≡ drop n (str s))
unfolding ignore str
ignore-str {s} n v h =
    ground (arith, length-drop s.read_pos s.vch, v.inside, v.small, drop-drop s.read_pos n s.vch)

-- All the bytes that there are, in a stream that has been read from: the buffer is emptied and the
-- read position stays, so that the stream is not valid, does not count as empty, and its size is
-- near 2 ^ 64.
pub ignore_all :
    {s : DataStream}
    → IsValid s
    → 0 < s.read_pos
    → let s' = ignore s (length (str s)) in
      (¬ IsValid s') × (empty s' ≡ false) × (size s' ≡ 2 ^ 64 - s.read_pos)
unfolding ignore str size empty
ignore_all {s} v h =
    let d = length-drop s.read_pos s.vch in
    (
      (λ v'. ground (arith, d, v.inside, v.small, v'.inside)),
      ground (arith, d, v.inside, v.small),
      ground (arith, d, v.inside, v.small),
    )

-- Rewind undoes a read that left something in the buffer; one that took all that there was emptied
-- the buffer, and cannot be undone.
pub rewind-read :
    {s : DataStream} (n : ℕ)
    → IsValid s
    → (n < length (str s) → rewind (read s n).1 n ≡ (s, true))
      × (n ≡ length (str s) → 0 < n → rewind (read s n).1 n ≡ ((read s n).1, false))
unfolding rewind str read
rewind-read {s} n v =
    let d = length-drop s.read_pos s.vch in
    (λ h. ground (arith, d, v.inside, v.small), λ e h. ground (arith, d, v.inside, v.small))

-- Compact drops what has been read, and nothing else.
pub compact-str :
    {s : DataStream}
    → IsValid s
    → IsValid (compact s) × (str (compact s) ≡ str s) × (length (compact s).vch ≡ length (str s))
unfolding compact str
compact-str {s} v = ground (arith, length-drop s.read_pos s.vch, v.inside, v.small)

-- Inserting at the read position puts the bytes before those still to be read, whether or not they
-- go over the bytes that have been read.
pub insert_range-str :
    {s : DataStream} (xs : List ℕ)
    → IsValid s
    → length s.vch + length xs < 2 ^ 32
    → IsValid (insert_range s s.read_pos xs) × (str (insert_range s s.read_pos xs) ≡ xs ++ str s)
unfolding insert_range str
insert_range-str {s} xs v h = ground (
  arith,
  v.inside,
  v.small,
  length-append (take (s.read_pos - length xs) s.vch) (xs ++ drop s.read_pos s.vch),
  length-append (take s.read_pos s.vch) (xs ++ drop s.read_pos s.vch),
  length-append xs (drop s.read_pos s.vch),
  length-take (s.read_pos - length xs) s.vch,
  length-take s.read_pos s.vch,
  length-drop s.read_pos s.vch,
  drop-take_append (s.read_pos - length xs) s.vch (xs ++ drop s.read_pos s.vch),
  drop-take_append s.read_pos s.vch (xs ++ drop s.read_pos s.vch),
)
