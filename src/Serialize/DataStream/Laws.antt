-- ===== src/Serialize/DataStream/Laws.antt =====
-- CDataStream keeps the laws by which the theorems about the templates hold.
use huicpp.Base.{
  ℕ, ◌+◌, ◌%◌, ◌^◌, ◌<◌, ◌≤◌, ◌≡◌, refl, ap, arith, List, [], ◌∷◌, ◌++◌, length, drop,
  length-append, length-drop, take-append, drop-append, drop-drop, drop-all,
}
use huicpp.Serialize.Stream.{Appends, Delivers, Writes, write_all, join}
use huicpp.Serialize.DataStream.{
  DataStream, SizeComputer, data_ostream, data_istream, read, write, str, size_computer,
  count_write,
}

-- The read position lies in the buffer, and no sum of positions wraps.
pub record IsValid (s : DataStream) : Type 0 where
  pub inside : s.read_pos ≤ length s.vch
  pub small : length s.vch < 2 ^ 32

-- `l` is what is still to be read.
pub record Unread (s : DataStream) (l : List ℕ) : Type 0 where
  pub valid : IsValid s
  pub content : str s ≡ l

pub data_stream-Appends : Appends data_ostream (λ s. s.vch)
unfolding write
data_stream-Appends = record { written-write = λ s bs. refl }

module _ (s : DataStream) (bs rest : List ℕ) (u : Unread s (bs ++ rest)) where
  enough : s.read_pos + length bs + length rest ≡ length s.vch
  unfolding str
  enough = omega (
    arith,
    ap (λ l. length l) u.content,
    length-drop s.read_pos s.vch,
    length-append bs rest,
    u.valid.inside,
  )

  read_content : (read s (length bs)).0 ≡ bs
  unfolding read str
  read_content = ground (arith, enough, u.valid.small, u.content, take-append bs rest)

  rest_content : drop (s.read_pos + length bs) s.vch ≡ rest
  unfolding str
  rest_content = rw (← drop-drop s.read_pos (length bs) s.vch, u.content) (drop-append bs rest)

  after_read : Unread (read s (length bs)).1 rest
  unfolding read str
  after_read = ground (
    arith,
    enough,
    u.valid.small,
    u.valid.inside,
    rest_content,
    drop-all (s.read_pos + length bs) s.vch,
  )

-- A CDataStream delivers the bytes that are in it.
pub data_stream-Delivers : Delivers data_istream Unread
data_stream-Delivers = record {
  read_bytes = λ s bs rest u. (read_content s bs rest u, after_read s bs rest u);
}

-- The number of bytes that CSizeComputer counts for a serialization.
pub size_computer-Writes :
    {w : SizeComputer → SizeComputer} {bytes : List ℕ}
    → Writes size_computer w bytes
    → (c : SizeComputer) → c.n_size < 2 ^ 64
    → (w c).n_size ≡ (c.n_size + length bytes) % 2 ^ 64
unfolding count_write
size_computer-Writes p c h = rw (p.run c, ← p.joined) (go c p.chunks h)
  where
    go :
        (c : SizeComputer) (cs : List (List ℕ))
        → c.n_size < 2 ^ 64
        → (write_all size_computer c cs).n_size ≡ (c.n_size + length (join cs)) % 2 ^ 64
    go c [] h = omega arith
    go c (b ∷ bs) h =
        omega (arith, length-append b (join bs), go (count_write c b) bs (omega arith))
