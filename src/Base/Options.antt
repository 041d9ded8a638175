-- ===== src/Base/Options.antt =====
-- Options as the results of code that may fail: `do` blocks over them.
use mathlib.Core.Option.{Option, none, some}
use mathlib.Core.Path.{◌≡◌, refl, subst}

infixl 25 ◌>>=◌
unfoldable pub ◌>>=◌ {ℓ} : {A B : Type ℓ} → Option A → (A → Option B) → Option B
none >>= f = none
some a >>= f = f a

abbrev pub return {ℓ} : {A : Type ℓ} → A → Option A
return a = some a

-- The result, if there is one, has the property.
abbrev pub IfSome {ℓ} : {A : Type ℓ} → (A → Type ℓ) → Option A → Type ℓ
IfSome P none = Unit
IfSome P (some a) = P a

pub IfSome-get {ℓ} :
    {A : Type ℓ} (P : A → Type ℓ) {o : Option A} {a : A} → IfSome P o → o ≡ some a → P a
IfSome-get P h e = subst (IfSome P) e h

pub IfSome-bind {ℓ} :
    {A B : Type ℓ} (P : A → Type ℓ) (Q : B → Type ℓ) (o : Option A) (f : A → Option B)
    → IfSome P o
    → ((a : A) → P a → IfSome Q (f a))
    → IfSome Q (o >>= f)
unfolding ◌>>=◌
IfSome-bind P Q none f h k = tt
IfSome-bind P Q (some a) f h k = k a h

pub IfSome-at {ℓ} :
    {A B : Type ℓ} (Q : B → Type ℓ) (o : Option A) (f : A → Option B)
    → ((a : A) → o ≡ some a → IfSome Q (f a))
    → IfSome Q (o >>= f)
unfolding ◌>>=◌
IfSome-at Q none f h = tt
IfSome-at Q (some a) f h = h a refl

pub some-Injective {ℓ} : {A : Type ℓ} {a b : A} → some a ≡ some b → a ≡ b
some-Injective {a = a} e = IfSome-get (λ x. a ≡ x) refl e
