-- ===== src/Base/Results.antt =====
-- Go's `(value, error)` returns: a value or an error, never both.
use mathlib.Core.Bool.{Bool, true, false}
use mathlib.Core.Path.{◌≡◌, refl}

pub data Result {ℓ} (E A : Type ℓ) : Type ℓ where
  ok : A → Result E A
  err : E → Result E A

-- `if err != nil { return err }`
infixl 5 ◌>>=◌ ◌>>◌
abbrev pub ◌>>=◌ {ℓ} : {E A B : Type ℓ} → Result E A → (A → Result E B) → Result E B
ok a >>= f = f a
err e >>= f = err e

abbrev pub ◌>>◌ {ℓ} : {E B : Type ℓ} → Result E (Unit {ℓ}) → Result E B → Result E B
m >> k = m >>= λ _. k

-- `if test { return e }`
abbrev pub refuse_if {ℓ} : {E : Type ℓ} → Bool → E → Result E (Unit {ℓ})
refuse_if true e = err e
refuse_if false e = ok tt

module _ {E A : Type 0} where
  -- A chain of checks that succeeds has passed its first check, and goes on; and conversely.
  pub refuse_inv :
      (b : Bool) (e : E) (k : Result E A) (a : A)
      → (refuse_if b e >> k) ≡ ok a
      → (b ≡ false) × (k ≡ ok a)
  refuse_inv true e k a h = absurd (cc)
  refuse_inv false e k a h = (refl, h)

  pub refuse_intro :
      (b : Bool) (e : E) (k : Result E A) (a : A)
      → b ≡ false
      → k ≡ ok a
      → (refuse_if b e >> k) ≡ ok a
  refuse_intro true e k a n h = absurd (cc)
  refuse_intro false e k a n h = h

  pub then_inv :
      (m : Result E Unit) (k : Result E A) (a : A) → (m >> k) ≡ ok a → (m ≡ ok tt) × (k ≡ ok a)
  then_inv (ok u) k a h = (refl, h)
  then_inv (err e) k a h = absurd (cc)

  pub then_intro :
      (m : Result E Unit) (k : Result E A) (a : A) → m ≡ ok tt → k ≡ ok a → (m >> k) ≡ ok a
  then_intro (ok u) k a n h = h
  then_intro (err e) k a n h = absurd (cc)

module _ {E A B : Type 0} where
  pub bind_inv :
      (m : Result E A) (k : A → Result E B) (b : B)
      → (m >>= k) ≡ ok b
      → (a : A) × (m ≡ ok a) × (k a ≡ ok b)
  bind_inv (ok a) k b h = (a, refl, h)
  bind_inv (err e) k b h = absurd (cc)

  pub bind_intro :
      (m : Result E A) (k : A → Result E B) (a : A) (b : B)
      → m ≡ ok a
      → k a ≡ ok b
      → (m >>= k) ≡ ok b
  bind_intro m k a b e h = rw e h

pub refuse_passed : {E : Type 0} (b : Bool) (e : E) → refuse_if b e ≡ ok tt → b ≡ false
refuse_passed true e h = absurd (cc)
refuse_passed false e h = refl
