-- ===== src/Serialize/Stream.antt =====
-- What the templates of src/hserialize.h ask of a stream: `.write(ptr, n)` and `.read(ptr, n)`,
-- and the two postconditions by which the theorems about them compose.
use huicpp.Base.{
  ◌∷◌, ap₂, ℕ, ◌≡◌, refl, sym, ap, ◌∙◌, List, [], ◌++◌, append_assoc, append-nil, length,
}
use huicpp.Base.{Option, none, some}
use mathlib.Core.Path.{subst₂}

-- `s.write(p, n)`: the list is the `n` bytes at `p`.
pub record OStream (S : Type 0) : Type 0 where
  pub write : S → List ℕ → S

-- `s.read(p, n)`: what is stored in the `n` bytes at `p`, and the stream afterwards.
pub record IStream (S : Type 0) : Type 0 where
  pub read : S → ℕ → List ℕ × S

-- A stream that keeps all that is written to it, in order.
pub record Appends {S : Type 0} (os : OStream S) (written : S → List ℕ) : Type 0 where
  pub written-write : (s : S) (bs : List ℕ) → written (os.write s bs) ≡ written s ++ bs

-- A stream that gives back the bytes before it; `At s l`: the bytes of `l` are still to be read.
pub record Delivers {S : Type 0} (is : IStream S) (At : S → List ℕ → Type 0) : Type 0 where
  pub read_bytes :
      (s : S) (bs rest : List ℕ)
      → At s (bs ++ rest)
      → ((is.read s (length bs)).0 ≡ bs) × At (is.read s (length bs)).1 rest

-- Reading: a new stream and a value, or `none` for a loop that does not end.
abbrev pub Reader : Type 0 → Type 0 → Type 0
Reader S A = S → Option (A × S)

infixl 5 ◌>>=◌ ◌>>◌
abbrev pub ◌>>=◌ : {S A B : Type 0} → Reader S A → (A → Reader S B) → Reader S B
◌>>=◌ m f s = elim (m s) [ none ↦ none | some (a, s') ↦ f a s' ]

abbrev pub ◌>>◌ : {S A B : Type 0} → Reader S A → Reader S B → Reader S B
◌>>◌ m k = m >>= λ _. k

abbrev pub return : {S A : Type 0} → A → Reader S A
return a s = some (a, s)

-- A loop that has not ended within its bound.
abbrev pub stuck : {S A : Type 0} → Reader S A
stuck s = none

-- `r` takes exactly `bytes` from the stream and gives `v`.
pub record Reads {S A : Type 0} (At : S → List ℕ → Type 0) (r : Reader S A) (bytes : List ℕ) (v : A)
    : Type 0 where
  pub run :
      (s : S) (rest : List ℕ) → At s (bytes ++ rest) → (s' : S) × (r s ≡ some (v, s')) × At s' rest

-- The bytes of several writes, one after the other.
abbrev pub join : List (List ℕ) → List ℕ
join [] = []
join (c ∷ cs) = c ++ join cs

abbrev pub write_all : {S : Type 0} → OStream S → S → List (List ℕ) → S
write_all os s [] = s
write_all os s (c ∷ cs) = write_all os (os.write s c) cs

-- `w` makes writes, and nothing else, that come to exactly `bytes`.
pub record Writes {S : Type 0} (os : OStream S) (w : S → S) (bytes : List ℕ) : Type 0 where
  pub chunks : List (List ℕ)
  pub run : (s : S) → w s ≡ write_all os s chunks
  pub joined : join chunks ≡ bytes

module _ {S : Type 0} {At : S → List ℕ → Type 0} where
  pub Reads-return : {A : Type 0} (a : A) → Reads At (return a) [] a
  Reads-return a = record { run = λ s rest h. (s, refl, h) }

  pub Reads-bind :
      {A B : Type 0} {m : Reader S A} {b₁ b₂ : List ℕ} {a : A} {b : B} (f : A → Reader S B)
      → Reads At m b₁ a
      → Reads At (f a) b₂ b
      → Reads At (m >>= f) (b₁ ++ b₂) b
  Reads-bind {m} {b₁} {b₂} {b} f p q = record { run = go }
    where
      go :
          (s : S) (rest : List ℕ)
          → At s ((b₁ ++ b₂) ++ rest)
          → (s' : S) × ((m >>= f) s ≡ some (b, s')) × At s' rest
      go s rest h =
          let (s₁, e₁, h₁) = p.run s (b₂ ++ rest) (rw append_assoc at h) in
          let (s₂, e₂, h₂) = q.run s₁ rest h₁ in (s₂, rw (e₁, ◌>>=◌) e₂, h₂)

  pub Reads-cast :
      {A : Type 0} {r : Reader S A} {b₁ b₂ : List ℕ} {v₁ v₂ : A}
      → b₁ ≡ b₂
      → v₁ ≡ v₂
      → Reads At r b₁ v₁
      → Reads At r b₂ v₂
  Reads-cast {r} e e' p = subst₂ (λ b v. Reads At r b v) e e' p

  -- A last step that reads nothing.
  pub Reads-map :
      {A B : Type 0} {m : Reader S A} {bytes : List ℕ} {a : A} (f : A → B)
      → Reads At m bytes a
      → Reads At (m >>= λ x. return (f x)) bytes (f a)
  Reads-map {m} {bytes} {a} f p = record { run = go }
    where
      go :
          (s : S) (rest : List ℕ)
          → At s (bytes ++ rest)
          → (s' : S) × ((m >>= λ x. return (f x)) s ≡ some (f a, s')) × At s' rest
      go s rest h = let (s', e, h') = p.run s rest h in (s', rw (e, ◌>>=◌), h')

join-append : (cs ds : List (List ℕ)) → join (cs ++ ds) ≡ join cs ++ join ds
join-append [] ds = refl
join-append (c ∷ cs) ds = rw (join-append cs ds, append_assoc)

write_all-append :
    {S : Type 0} (os : OStream S) (s : S) (cs ds : List (List ℕ))
    → write_all os s (cs ++ ds) ≡ write_all os (write_all os s cs) ds
write_all-append os s [] ds = refl
write_all-append os s (c ∷ cs) ds = write_all-append os (os.write s c) cs ds

module _ {S : Type 0} {os : OStream S} where
  pub Writes-skip : Writes os (λ s. s) []
  Writes-skip = record { chunks = []; run = λ s. refl; joined = refl }

  pub Writes-one : (bs : List ℕ) → Writes os (λ s. os.write s bs) bs
  Writes-one bs = record { chunks = bs ∷ []; run = λ s. refl; joined = append-nil bs }

  pub Writes-seq :
      {w₁ w₂ : S → S} {b₁ b₂ : List ℕ}
      → Writes os w₁ b₁
      → Writes os w₂ b₂
      → Writes os (λ s. w₂ (w₁ s)) (b₁ ++ b₂)
  Writes-seq {w₁} p q = record {
    chunks = p.chunks ++ q.chunks;
    run = λ s.
        q.run (w₁ s)
        ∙ ap (λ t. write_all os t q.chunks) (p.run s)
        ∙ sym (write_all-append os s p.chunks q.chunks);
    joined = join-append p.chunks q.chunks ∙ ap₂ ◌++◌ p.joined q.joined;
  }

-- A stream that keeps what is written to it then holds the bytes behind those that it held.
pub written-Writes :
    {S : Type 0} {os : OStream S} {written : S → List ℕ}
    → Appends os written
    → {w : S → S} {bytes : List ℕ} → Writes os w bytes
    → (s : S) → written (w s) ≡ written s ++ bytes
written-Writes {S} {os} {written} l p s =
    ap written (p.run s) ∙ go s p.chunks ∙ ap (λ b. written s ++ b) p.joined
  where
    go : (s : S) (cs : List (List ℕ)) → written (write_all os s cs) ≡ written s ++ join cs
    go s [] = sym (append-nil (written s))
    go s (c ∷ cs) = go (os.write s c) cs ∙ rw (l.written-write s c, append_assoc)
