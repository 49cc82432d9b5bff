-- ===== src/Base/Results.antt =====
-- A computation that may raise, with the message of the exception as its error.
use Prim.Native.String.{String}
use night_voyager.Base.Tests.{if◌then◌else◌}
use mathlib.Core.Path.{◌≡◌, refl}
use mathlib.Core.Bool.{Bool, true, false}
use mathlib.Core.Logic.{◌⊎◌, inl, inr}

pub data Result {ℓ} (T : Type ℓ) : Type ℓ where
  ok : T → Result T
  err : String → Result T

module _ {ℓ κ} {S : Type ℓ} {T : Type κ} where
  infixl 5 ◌>>=◌
  -- The first exception ends the chain.
  abbrev pub ◌>>=◌ : Result S → (S → Result T) → Result T
  err message >>= rest = err message
  ok value >>= rest = rest value

  -- What a chain that raised nothing went through.
  pub bind-eq-ok :
      (step : Result S) (rest : S → Result T) {out : T}
      → (step >>= rest) ≡ ok out
      → (mid : S) × (step ≡ ok mid) × (rest mid ≡ ok out)
  bind-eq-ok (err message) rest e = cc
  bind-eq-ok (ok value) rest e = (value, refl, e)

-- `if b: raise ValueError(message)`
abbrev pub raise_if : Bool → String → Result (Unit {0})
raise_if false message = ok tt
raise_if true message = err message

module _ {ℓ} {T : Type ℓ} where
  infixl 5 ◌>>◌
  abbrev pub ◌>>◌ : Result (Unit {0}) → Result T → Result T
  check >> rest = check >>= λ _. rest

  pub ok-injective : {s t : T} → ok s ≡ ok t → s ≡ t
  ok-injective e = cc

  -- Past a guard: the test failed, and the rest gave the result.
  pub raise_if-then :
      (test : Bool) (message : String) (rest : Result T) {out : T}
      → (raise_if test message >> rest) ≡ ok out
      → (test ≡ false) × (rest ≡ ok out)
  raise_if-then false message rest e = (refl, e)
  raise_if-then true message rest e = cc

  -- Past a guard that is written as a conditional.
  pub if-err :
      (test : Bool) (message : String) (rest : Result T) {out : T}
      → (if test then err message else rest) ≡ ok out
      → (test ≡ false) × (rest ≡ ok out)
  if-err false message rest e = (refl, e)
  if-err true message rest e = cc

  pub if-ok :
      (test : Bool) (message : String) (value : T) {out : T}
      → (if test then ok value else err message) ≡ ok out
      → (test ≡ true) × (value ≡ out)
  if-ok true message value e = (refl, ok-injective e)
  if-ok false message value e = cc

  pub if-either :
      (test : Bool) (one other : Result T) {out : T}
      → (if test then one else other) ≡ ok out
      → ((test ≡ true) × (one ≡ ok out)) ⊎ ((test ≡ false) × (other ≡ ok out))
  if-either true one other e = inl (refl, e)
  if-either false one other e = inr (refl, e)

pub Result-cases :
    {A : Type 0} (r : Result A) → ((a : A) × (r ≡ ok a)) ⊎ ((message : String) × (r ≡ err message))
Result-cases (ok a) = inl (a, refl)
Result-cases (err message) = inr (message, refl)
