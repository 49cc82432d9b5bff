-- ===== src/Base/DictLaws.antt =====
-- The dict of a comprehension over values with distinct keys.
use mathlib.Core.Path.{◌≡◌, refl}
use mathlib.Core.Bool.{Bool, true, false}
use mathlib.Core.Option.{none, some}
use mathlib.Core.List.{List, [], ◌∷◌, map}
use native.Mathlib.Omega.{arith}
use night_voyager.Base.Equality.{HasEq, nat_eq, string_eq, beq_refl, option_eq}
use night_voyager.Base.Lists.{any, select, All, contains, list_eq, dict_get}
use night_voyager.Base.ListLaws.{All-imp, Unique}

module _ {ℓ κ} {K : Type ℓ} {V : Type κ} ⦃e : HasEq K⦄ (key : V → K) where
  dict_get-absent :
      (k : K) (vs : List V) → contains k (map key vs) ≡ false → dict_get key k vs ≡ none
  dict_get-absent k [] h = refl
  dict_get-absent k (v ∷ vs) h =
      ground (arith, dict_get-absent k vs, e.eqb_iff (key v) k, e.eqb_iff k (key v))

  dict_get-cons :
      (k : K) (w : V) (vs : List V) {v : V}
      → dict_get key k vs ≡ some v
      → dict_get key k (w ∷ vs) ≡ some v
  dict_get-cons k w vs h = ground (arith, h)

  -- Every value is found under its key.
  pub dict_get-All :
      (vs : List V) → Unique (map key vs) → All (λ v. dict_get key (key v) vs ≡ some v) vs
  dict_get-All [] u = tt
  dict_get-All (v ∷ vs) u = (
    ground (arith, dict_get-absent (key v) vs u.0, beq_refl (key v)),
    All-imp (λ w h. dict_get-cons (key w) v vs h) vs (dict_get-All vs u.1),
  )

module _ {ℓ κ} {A : Type ℓ} {B : Type κ} (f : A → B) where
  -- A test that fails at every selected element fails on all their images.
  pub any-map-select :
      (p : A → Bool) (q : B → Bool) (xs : List A)
      → All (λ x. p x ≡ true → q (f x) ≡ false) xs
      → any q (map f (select p xs)) ≡ false
  any-map-select p q [] h = refl
  any-map-select p q (x ∷ xs) h = ground (arith, any-map-select p q xs h.1)
