-- ===== src/Crypto/Async.antt =====
-- The `async` functions of frontend/src/shared/crypto as a monad: each step returns or throws, and
-- the state is the number of the next draw of random bytes.
use nothingapp.Common.{ℕ, ◌≡◌, refl, ap}
use nothingapp.Crypto.Platform.{Result, ok, err, Error}

abbrev pub Async {ℓ} : Type ℓ → Type ℓ
Async A = ℕ → Result A × ℕ

abbrev pub pure {ℓ} : {A : Type ℓ} → A → Async A
pure a w = (ok a, w)

abbrev pub throw {ℓ} : {A : Type ℓ} → Error → Async A
throw e w = (err e, w)

-- A step that draws nothing.
abbrev pub lift {ℓ} : {A : Type ℓ} → Result A → Async A
lift r w = (r, w)

abbrev pub resume {ℓ κ} : {A : Type ℓ} {B : Type κ} → (A → Async B) → Result A × ℕ → Result B × ℕ
resume f (ok a, w) = f a w
resume f (err e, w) = (err e, w)

infixl 5 ◌>>=◌
abbrev pub ◌>>=◌ {ℓ κ} : {A : Type ℓ} {B : Type κ} → Async A → (A → Async B) → Async B
◌>>=◌ m f w = resume f (m w)

-- A chain that returns: its first step returned, and so did the rest from there.
pub >>=-eq-ok {ℓ κ} :
    {A : Type ℓ} {B : Type κ} (m : Async A) (f : A → Async B) (w : ℕ) {b : B}
    → ((m >>= f) w).0 ≡ ok b
    → (a : A) × (v : ℕ) × (m w ≡ (ok a, v)) × ((f a v).0 ≡ ok b)
>>=-eq-ok {A} {B} m f w {b} = go (m w) refl
  where
    go :
        (r : Result A × ℕ)
        → m w ≡ r
        → (resume f r).0 ≡ ok b
        → (a : A) × (v : ℕ) × (m w ≡ (ok a, v)) × ((f a v).0 ≡ ok b)
    go (ok a, v) e h = (a, v, e, h)
    go (err x, v) e h = cc

-- A last step that only builds the result.
pub >>=-pure {ℓ κ} :
    {A : Type ℓ} {B : Type κ} (m : Async A) (f : A → B) (w : ℕ) (a : A)
    → (m w).0 ≡ ok a
    → ((m >>= λ x. pure (f x)) w).0 ≡ ok (f a)
>>=-pure {A} {B} m f w a = go (m w)
  where
    go : (r : Result A × ℕ) → r.0 ≡ ok a → (resume (λ x. pure (f x)) r).0 ≡ ok (f a)
    go (ok x, v) h = ap (λ r. elim r [ ok y ↦ ok (f y) | err e ↦ err e ]) h
    go (err x, v) h = cc
