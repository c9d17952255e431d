-- ===== src/Base/Result.antt =====
-- A computation that may raise. The parameter `E` is the module's own list of exceptions.
use mathlib.Core.Path.{◌≡◌, refl, ap}
use mathlib.Core.Logic.{◌⊎◌, inl, inr}
use mathlib.Core.Bool.{Bool, true, false, not, ◌||◌}
use mathlib.Core.Option.{Option, none, some}

pub data Result {ℓ} (E : Type 0) (A : Type ℓ) : Type ℓ where
  err : E → Result E A
  ok : A → Result E A

module _ {E : Type 0} where
  -- `if test: raise e`
  abbrev pub raise_if : Bool → E → Result E (Unit {0})
  raise_if false e = ok tt
  raise_if true e = err e

  -- A value that is there, or the exception.
  abbrev pub or_raise {ℓ} : {A : Type ℓ} → Option A → E → Result E A
  or_raise (some a) e = ok a
  or_raise none e = err e

  infixl 5 ◌>>=◌ ◌>>◌
  abbrev pub ◌>>=◌ {ℓ κ} : {A : Type ℓ} {B : Type κ} → Result E A → (A → Result E B) → Result E B
  err e >>= f = err e
  ok a >>= f = f a

  abbrev pub ◌>>◌ {κ} : {B : Type κ} → Result E (Unit {0}) → Result E B → Result E B
  check >> rest = check >>= λ u. rest

  -- To split on a computed result and keep the equation.
  pub Result-cases {ℓ} :
      {A : Type ℓ} (r : Result E A) → ((a : A) × (r ≡ ok a)) ⊎ ((e : E) × (r ≡ err e))
  Result-cases (err e) = inr (e, refl)
  Result-cases (ok a) = inl (a, refl)

  -- The steps of a computation that has succeeded.
  pub >>=-eq-ok {ℓ κ} :
      {A : Type ℓ} {B : Type κ} (r : Result E A) (f : A → Result E B) {b : B}
      → (r >>= f) ≡ ok b
      → (a : A) × (r ≡ ok a) × (f a ≡ ok b)
  >>=-eq-ok (err e) f h = cc
  >>=-eq-ok (ok a) f h = (a, refl, h)

  pub >>-eq-ok {κ} :
      {B : Type κ} (check : Result E (Unit {0})) (rest : Result E B) {b : B}
      → (check >> rest) ≡ ok b
      → (check ≡ ok tt) × (rest ≡ ok b)
  >>-eq-ok (err e) rest h = cc
  >>-eq-ok (ok tt) rest h = (refl, h)

  pub or_raise-eq-ok {ℓ} :
      {A : Type ℓ} (o : Option A) (e : E) {a : A} → or_raise o e ≡ ok a → o ≡ some a
  or_raise-eq-ok none e h = cc
  or_raise-eq-ok (some b) e h = cc

  -- A test that was passed.
  pub raise_if-not : (b : Bool) (e : E) → raise_if (not b) e ≡ ok tt → b ≡ true
  raise_if-not true e h = refl
  raise_if-not false e h = cc

  pub raise_if-neither :
      (b c : Bool) (e : E) → raise_if (not b || not c) e ≡ ok tt → (b ≡ true) × (c ≡ true)
  raise_if-neither true true e h = (refl, refl)
  raise_if-neither true false e h = cc
  raise_if-neither false c e h = cc

  pub ok-injective {ℓ} : {A : Type ℓ} {a b : A} → Path (Result E A) (ok a) (ok b) → a ≡ b
  ok-injective {a = a} h = ap (λ r. elim r [ err e ↦ a | ok x ↦ x ]) h
