-- ===== src/Prelude/Outcome.antt =====
-- What a function that may raise returns: a value, or the exception as a value of the error type of
-- its component. A `do` block stops at the first error.
use mathlib.Core.Path.{◌≡◌, refl}
use mathlib.Core.Bool.{Bool, true, false}
use solo_lmnp.Prelude.{if◌then◌else◌}

pub data Outcome {ℓ} (E : Type 0) (A : Type ℓ) : Type ℓ where
  ok : A → Outcome E A
  err : E → Outcome E A

module _ {E : Type 0} where
  infixl 5 ◌>>=◌ ◌>>◌
  abbrev pub ◌>>=◌ {ℓ κ} : {A : Type ℓ} {B : Type κ} → Outcome E A → (A → Outcome E B) → Outcome E B
  err e >>= f = err e
  ok a >>= f = f a

  abbrev pub ◌>>◌ {ℓ} : {B : Type ℓ} → Outcome E (Unit {0}) → Outcome E B → Outcome E B
  first >> rest = first >>= λ _. rest

  -- `if not t: raise e`
  abbrev pub guard : Bool → E → Outcome E (Unit {0})
  guard false e = err e
  guard true e = ok tt

  -- A chain that succeeds has parts that succeed.
  pub >>=-eq-ok {ℓ κ} :
      {A : Type ℓ} {B : Type κ} (m : Outcome E A) (f : A → Outcome E B) {b : B}
      → (m >>= f) ≡ ok b
      → (a : A) × (m ≡ ok a) × (f a ≡ ok b)
  >>=-eq-ok (err e) f h = cc
  >>=-eq-ok (ok a) f h = (a, refl, h)

  pub guard-eq-ok {ℓ} :
      {B : Type ℓ} (t : Bool) (e : E) (k : Outcome E B) {b : B}
      → (guard t e >> k) ≡ ok b
      → (t ≡ true) × (k ≡ ok b)
  guard-eq-ok false e k h = cc
  guard-eq-ok true e k h = (refl, h)

  pub ok_inj {ℓ} : {A : Type ℓ} {a b : A} → ◌≡◌ {A = Outcome E A} (ok a) (ok b) → a ≡ b
  ok_inj h = cc

  pub if_err-eq-ok {ℓ} :
      {A : Type ℓ} (b : Bool) (e : E) (x : A) {y : A}
      → (if b then err e else ok x) ≡ ok y
      → (b ≡ false) × (x ≡ y)
  if_err-eq-ok true e x h = cc
  if_err-eq-ok false e x h = (refl, ok_inj h)

  pub if_ok-eq-ok {ℓ} :
      {A : Type ℓ} (b : Bool) (e : E) (x : A) {y : A}
      → (if b then ok x else err e) ≡ ok y
      → (b ≡ true) × (x ≡ y)
  if_ok-eq-ok true e x h = (refl, ok_inj h)
  if_ok-eq-ok false e x h = cc

  -- The value of a call that returns, or another one.
  abbrev pub value_or {ℓ} : {A : Type ℓ} → A → Outcome E A → A
  value_or d (ok a) = a
  value_or d (err e) = d

  abbrev pub is_ok {ℓ} : {A : Type ℓ} → Outcome E A → Bool
  is_ok (ok a) = true
  is_ok (err e) = false

  pub value_or-is_ok {ℓ} :
      {A : Type ℓ} (d : A) (o : Outcome E A) → is_ok o ≡ true → o ≡ ok (value_or d o)
  value_or-is_ok d (ok a) h = refl
  value_or-is_ok d (err e) h = cc
