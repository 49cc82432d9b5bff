-- ===== src/Base/OrderLaws.antt =====
-- `sorted(set(xs), key=...)` holds the elements of `xs`, each once.
use mathlib.Core.Path.{subst}
use night_voyager.Base.{
  HasEq, ◌==◌, nat_eq, string_eq, eq_of_beq, option_eq, contains, dedup, list_eq, String, ◌≡◌, refl,
  sym, ◌∙◌, true, false, ◌||◌, List, [], ◌∷◌, arith,
}
use night_voyager.Base.Order.{insert_by, sorted_by}
use night_voyager.Base.ListLaws.{Unique}

module _ {ℓ} {A : Type ℓ} ⦃e : HasEq A⦄ (key : A → String) where
  contains-insert_by :
      (a x : A) (xs : List A) → contains a (insert_by key x xs) ≡ ((a == x) || contains a xs)
  contains-insert_by a x [] = refl
  contains-insert_by a x (y ∷ ys) = ground (arith, contains-insert_by a x ys)

  contains-sorted_by : (a : A) (xs : List A) → contains a (sorted_by key xs) ≡ contains a xs
  contains-sorted_by a [] = refl
  contains-sorted_by a (x ∷ xs) =
      ground (arith, contains-insert_by a x (sorted_by key xs), contains-sorted_by a xs)

  contains-dedup : (a : A) (xs : List A) → contains a (dedup xs) ≡ contains a xs
  contains-dedup a [] = refl
  contains-dedup a (x ∷ xs) = ground (arith, contains-dedup a xs, e.eqb_iff a x)

  insert_by-Unique :
      (x : A) (xs : List A) → contains x xs ≡ false → Unique xs → Unique (insert_by key x xs)
  insert_by-Unique x [] h u = (refl, tt)
  insert_by-Unique x (y ∷ ys) h u =
      ground (arith, insert_by-Unique x ys, contains-insert_by y x ys, e.eqb_iff x y, e.eqb_iff y x)

  sorted_by-Unique : (xs : List A) → Unique xs → Unique (sorted_by key xs)
  sorted_by-Unique [] u = tt
  sorted_by-Unique (x ∷ xs) u =
      insert_by-Unique x (sorted_by key xs) (contains-sorted_by x xs ∙ u.0)
        (sorted_by-Unique xs u.1)

  dedup-Unique : (xs : List A) → Unique (dedup xs)
  dedup-Unique [] = tt
  dedup-Unique (x ∷ xs) = ground (arith, dedup-Unique xs, contains-dedup x xs)

  -- A list that equals its sorted set repeats no element.
  pub Unique-of_sorted : (xs : List A) → (xs == sorted_by key (dedup xs)) ≡ true → Unique xs
  Unique-of_sorted xs h =
      subst Unique (sym (eq_of_beq h)) (sorted_by-Unique (dedup xs) (dedup-Unique xs))

  -- A list without repetition is its own set.
  pub dedup_of_Unique : (xs : List A) → Unique xs → dedup xs ≡ xs
  dedup_of_Unique [] u = refl
  dedup_of_Unique (x ∷ xs) u = ground (arith, dedup_of_Unique xs)
