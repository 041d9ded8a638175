-- ===== src/Buffers/Memory.antt =====
-- memmove into a block of memory: bytes are written at a place of a list of bytes.
use huicpp.Base.{
  ◌⊎◌, inl, inr, sym, ℕ, zero, suc, ◌+◌, ◌-◌, ◌≤◌, ◌<◌, ◌≡◌, refl, ap, ◌∙◌, arith, List, [], ◌∷◌,
  ◌++◌, length, take, drop, true, false, if◌then◌else◌, ltb, Option, none, some, length-append,
  length-take, length-drop, take-append, drop-append, append_assoc, drop-drop,
}

-- `none`: the bytes do not fit behind `pos`, and the code would write outside of the block.
unfoldable pub write_at : ℕ → List ℕ → List ℕ → Option (List ℕ)
write_at pos bytes mem =
    if ltb (length mem) (pos + length bytes)
    then none
    else some (take pos mem ++ bytes ++ drop (pos + length bytes) mem)

-- `count` bytes from `pos` on; `none` outside of the block.
unfoldable pub read_at : ℕ → ℕ → List ℕ → Option (List ℕ)
read_at pos count mem =
    if ltb (length mem) (pos + count) then none else some (take count (drop pos mem))

pub write_beyond :
    (pos : ℕ) (bytes mem : List ℕ) → length mem < pos + length bytes → write_at pos bytes mem ≡ none
unfolding write_at
write_beyond pos bytes mem h =
    let b : ltb (length mem) (pos + length bytes) ≡ true = ground arith in rw b refl

drop-prefix : (a b : List ℕ) (n : ℕ) → length a ≡ n → drop n (a ++ b) ≡ b
drop-prefix a b n e = rw (← e) (drop-append a b)

take-prefix : (a b : List ℕ) (n : ℕ) → length a ≡ n → take n (a ++ b) ≡ a
take-prefix a b n e = rw (← e) (take-append a b)

-- What is in the block after a write that fits: the bytes at their place, the rest as it was.
pub record Written (pos : ℕ) (bytes mem mem' : List ℕ) : Type 0 where
  pub same_length : length mem' ≡ length mem
  pub before : take pos mem' ≡ take pos mem
  pub upto : take (pos + length bytes) mem' ≡ take pos mem ++ bytes
  pub after : drop (pos + length bytes) mem' ≡ drop (pos + length bytes) mem
  pub there : read_at pos (length bytes) mem' ≡ some bytes

pub write_at-Written :
    (pos : ℕ) (bytes mem : List ℕ)
    → pos + length bytes ≤ length mem
    → (mem' : List ℕ) × (write_at pos bytes mem ≡ some mem') × Written pos bytes mem mem'
unfolding write_at read_at
write_at-Written pos bytes mem h =
    let a = take pos mem in
    let c = drop (pos + length bytes) mem in
    let la : length a ≡ pos = omega (arith, length-take pos mem) in
    let lab : length (a ++ bytes) ≡ pos + length bytes = omega (arith, la, length-append a bytes) in
    let whole : length (a ++ bytes ++ c) ≡ length mem =
      omega (arith, lab, length-append (a ++ bytes) c, length-drop (pos + length bytes) mem) in
    let b : ltb (length mem) (pos + length bytes) ≡ false = ground arith in
    let d : drop pos (a ++ bytes ++ c) ≡ bytes ++ c =
      rw (append_assoc a bytes c) (drop-prefix a (bytes ++ c) pos la) in
    (
      a ++ bytes ++ c,
      rw b refl,
      record {
        same_length = whole;
        before = rw (append_assoc a bytes c) (take-prefix a (bytes ++ c) pos la);
        upto = take-prefix (a ++ bytes) c (pos + length bytes) lab;
        after = drop-prefix (a ++ bytes) c (pos + length bytes) lab;
        there = rw (whole, b, d) (ap some (take-append bytes c));
      },
    )

take-take : (m n : ℕ) (xs : List ℕ) → m ≤ n → take m (take n xs) ≡ take m xs
take-take zero n xs h = refl
take-take (suc m) zero xs h = absurd (omega arith)
take-take (suc m) (suc n) [] h = refl
take-take (suc m) (suc n) (x ∷ xs) h = ap (λ l. x ∷ l) (take-take m n xs (omega arith))

take-drop-take :
    (at count pos : ℕ) (xs : List ℕ)
    → at + count ≤ pos
    → take count (drop at xs) ≡ take count (drop at (take pos xs))
take-drop-take zero count pos xs h = sym (take-take count pos xs (omega (arith, h)))
take-drop-take (suc at) count zero xs h = absurd (omega arith)
take-drop-take (suc at) count (suc pos) [] h = refl
take-drop-take (suc at) count (suc pos) (x ∷ xs) h =
    take-drop-take at count pos xs (omega (arith, h))

-- Bytes that are all before the written ones, or all behind them, are read as before.
pub Written-apart :
    (pos : ℕ) (bytes mem mem' : List ℕ) (at count : ℕ)
    → Written pos bytes mem mem'
    → (at + count ≤ pos) ⊎ (pos + length bytes ≤ at)
    → read_at at count mem' ≡ read_at at count mem
unfolding read_at
Written-apart pos bytes mem mem' at count w (inl h) =
    rw
      (
        w.same_length,
        take-drop-take at count pos mem' h,
        w.before,
        ← take-drop-take at count pos mem h,
      )
      refl
Written-apart pos bytes mem mem' at count w (inr h) =
    let k = at - (pos + length bytes) in
    let e : at ≡ pos + length bytes + k = omega (arith, h) in
    let d : drop at mem' ≡ drop at mem = rw e (
      sym (drop-drop (pos + length bytes) k mem')
      ∙ ap (drop k) w.after
      ∙ drop-drop (pos + length bytes) k mem) in
    rw (w.same_length, d) refl
