-- ===== src/Prelude/Results.antt =====
-- Fallible code: `Result`, its bind for `?`, and `ensure!`.
use mathlib.Core.Path.{◌≡◌, refl}
use mathlib.Core.Bool.{Bool, true, false}
use mathlib.Core.Option.{Option, none, some}

pub data Result {ℓ κ} (E : Type ℓ) (A : Type κ) : Type (ℓ ⊔ κ) where
  err : E → Result E A
  ok : A → Result E A

-- `ensure!(test, failure)`.
abbrev pub ensure {ℓ} : {E : Type ℓ} → Bool → E → Result E (Unit {0})
ensure false failure = err failure
ensure true failure = ok tt

-- `ok_or_else`.
abbrev pub ok_or {ℓ κ} : {E : Type ℓ} {A : Type κ} → Option A → E → Result E A
ok_or (some a) failure = ok a
ok_or none failure = err failure

module _ {ℓ κ ι} {E : Type ℓ} {A : Type κ} {B : Type ι} where
  infixl 5 ◌>>=◌
  abbrev pub ◌>>=◌ : Result E A → (A → Result E B) → Result E B
  err failure >>= next = err failure
  ok a >>= next = next a

  -- A chain that succeeds has a first part that succeeds, and a rest that does so on its result.
  pub >>=-eq-ok :
      (first : Result E A) (next : A → Result E B) {b : B}
      → (first >>= next) ≡ ok b
      → (a : A) × (first ≡ ok a) × (next a ≡ ok b)
  >>=-eq-ok (err failure) next chain = cc
  >>=-eq-ok (ok a) next chain = (a, refl, chain)

infixl 5 ◌>>◌
abbrev pub ◌>>◌ {ℓ ι} : {E : Type ℓ} {B : Type ι} → Result E (Unit {0}) → Result E B → Result E B
first >> rest = first >>= λ _. rest

pub ensure-eq-ok {ℓ} :
    {E : Type ℓ} (test : Bool) (failure : E) {u : Unit {0}}
    → ensure test failure ≡ ok u
    → test ≡ true
ensure-eq-ok false failure h = cc
ensure-eq-ok true failure h = refl
