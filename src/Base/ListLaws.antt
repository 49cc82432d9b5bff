-- ===== src/Base/ListLaws.antt =====
-- Laws of the list idioms: what a test over a list says of its elements.
use mathlib.Core.List.{Memᴰ}
use mathlib.Core.Path.{subst}
use night_voyager.Base.{
  if◌then◌else◌, Bool-cases, Option-cases, HasEq, ◌==◌, nat_eq, string_eq, eq_of_beq, option_eq,
  length, any, all, find_first, count_if, All, contains, dedup, list_eq, dict_get, is_unique, suc,
  ◌≤◌, ◌<◌, ◌≡◌, refl, sym, inl, inr, Bool, true, false, some, List, [], ◌∷◌, ◌++◌, map, arith,
}

module _ {ℓ} {A : Type ℓ} (p : A → Bool) where
  pub any-false : (xs : List A) → any p xs ≡ false → All (λ x. p x ≡ false) xs
  any-false [] h = tt
  any-false (x ∷ xs) h = ground (arith, any-false xs)

  pub any-false_of_All : (xs : List A) → All (λ x. p x ≡ false) xs → any p xs ≡ false
  any-false_of_All [] h = refl
  any-false_of_All (x ∷ xs) h = ground (arith, any-false_of_All xs h.1)

  pub all-true : (xs : List A) → all p xs ≡ true → All (λ x. p x ≡ true) xs
  all-true [] h = tt
  all-true (x ∷ xs) h = ground (arith, all-true xs)

  pub all-true_of_All : (xs : List A) → All (λ x. p x ≡ true) xs → all p xs ≡ true
  all-true_of_All [] h = refl
  all-true_of_All (x ∷ xs) h = ground (arith, all-true_of_All xs h.1)

  pub find_first-eq-some :
      (xs : List A) {a : A} → find_first p xs ≡ some a → (p a ≡ true) × Memᴰ a xs
  find_first-eq-some [] h = cc
  find_first-eq-some (x ∷ xs) {a} h = elim (Bool-cases (p x)) [
    | inl found ↦ let e : x ≡ a = ground arith in (rw (← e) found, Memᴰ.head (sym e))
    | inr missed ↦ let r = find_first-eq-some xs (ground arith) in (r.0, Memᴰ.tail r.1)
  ]

module _ {ℓ κ} {A : Type ℓ} (P : A → Type κ) where
  pub All_mem : (xs : List A) {a : A} → All P xs → Memᴰ a xs → P a
  All_mem [] h m = elim m [ ]
  All_mem (x ∷ xs) h (Memᴰ.head e) = rw e h.0
  All_mem (x ∷ xs) h (Memᴰ.tail m) = All_mem xs h.1 m

module _ {ℓ κ μ} {A : Type ℓ} {P : A → Type κ} {Q : A → Type μ} where
  pub All-imp : ((a : A) → P a → Q a) → (xs : List A) → All P xs → All Q xs
  All-imp f [] h = tt
  All-imp f (x ∷ xs) h = (f x h.0, All-imp f xs h.1)

module _ {ℓ κ μ} {A : Type ℓ} {B : Type κ} (P : B → Type μ) (f : A → B) where
  pub All-map : (xs : List A) → All P (map f xs) → All (λ x. P (f x)) xs
  All-map [] h = tt
  All-map (x ∷ xs) h = (h.0, All-map xs h.1)

module _ {ℓ κ} {A : Type ℓ} (P : A → Type κ) where
  pub All-append : (xs ys : List A) → All P (xs ++ ys) → All P xs × All P ys
  All-append [] ys h = (tt, h)
  All-append (x ∷ xs) ys h = let r = All-append xs ys h.1 in ((h.0, r.0), r.1)

module _ {ℓ} {A : Type ℓ} ⦃e : HasEq A⦄ where
  pub contains_mem : (a : A) (xs : List A) → contains a xs ≡ true → Memᴰ a xs
  contains_mem a [] h = cc
  contains_mem a (x ∷ xs) h = elim (Bool-cases (a == x)) [
    | inl same ↦ Memᴰ.head ((e.eqb_iff a x).0 same)
    | inr other ↦ Memᴰ.tail (contains_mem a xs (ground arith))
  ]

  pub mem_contains : (a : A) (xs : List A) → Memᴰ a xs → contains a xs ≡ true
  mem_contains a [] m = elim m [ ]
  mem_contains a (x ∷ xs) (Memᴰ.head same) = ground (arith, e.eqb_iff a x)
  mem_contains a (x ∷ xs) (Memᴰ.tail m) = ground (arith, mem_contains a xs m)

  -- No element occurs twice.
  abbrev pub Unique : List A → Type 0
  Unique [] = Unit
  Unique (x ∷ xs) = (contains x xs ≡ false) × Unique xs

  pub length-dedup : (xs : List A) → length (dedup xs) ≤ length xs
  length-dedup [] = omega arith
  length-dedup (x ∷ xs) = ground (arith, length-dedup xs)

  pub is_unique-Unique : (xs : List A) → is_unique xs ≡ true → Unique xs
  is_unique-Unique [] h = tt
  is_unique-Unique (x ∷ xs) h = ground (arith, length-dedup xs, is_unique-Unique xs)

  pub Unique-is_unique : (xs : List A) → Unique xs → is_unique xs ≡ true
  Unique-is_unique [] h = refl
  Unique-is_unique (x ∷ xs) h = ground (arith, Unique-is_unique xs h.1)

  dedup-pos : (x : A) (xs : List A) → 0 < length (dedup (x ∷ xs))
  dedup-pos x [] = omega arith
  dedup-pos x (y ∷ ys) = ground (arith, dedup-pos y ys)

  eq_of_contains : (a b : A) (xs : List A) → contains a xs ≡ true → All (λ x. x ≡ b) xs → a ≡ b
  eq_of_contains a b [] h k = cc
  eq_of_contains a b (x ∷ xs) h k = ground (arith, e.eqb_iff a x, eq_of_contains a b xs)

  -- A set with one member: every element of the list is its first.
  pub dedup-one : (x : A) (xs : List A) → length (dedup (x ∷ xs)) ≡ 1 → All (λ y. y ≡ x) xs
  dedup-one x [] h = tt
  dedup-one x (y ∷ ys) h = elim (Bool-cases (contains x (y ∷ ys))) [
    | inl found ↦
        let ih = dedup-one y ys (rw found at h) in
        let same : x ≡ y = eq_of_contains x y (y ∷ ys) found (refl, ih) in
        subst (λ z. All (λ w. w ≡ z) (y ∷ ys)) (sym same) (refl, ih)
    | inr new ↦
        absurd (
          let h' : suc (length (dedup (y ∷ ys))) ≡ 1 = rw new at h in omega (arith, dedup-pos y ys))
  ]

module _ {ℓ κ} {K : Type ℓ} {V : Type κ} ⦃e : HasEq K⦄ (key : V → K) where
  -- What a dict gives back was put in under that key.
  pub dict_get-eq-some :
      (k : K) (vs : List V) {v : V} → dict_get key k vs ≡ some v → (key v ≡ k) × Memᴰ v vs
  dict_get-eq-some k [] h = cc
  dict_get-eq-some k (w ∷ vs) {v} h = elim (Option-cases (dict_get key k vs)) [
    | inr (u, found) ↦
        let r = dict_get-eq-some k vs found in
        let same : u ≡ v = ground arith in rw (← same) (r.0, Memᴰ.tail r.1)
    | inl missed ↦ elim (Bool-cases (key w == k)) [
      | inl here ↦
          let same : w ≡ v = ground arith in
          rw (← same) ((e.eqb_iff (key w) k).0 here, Memᴰ.head refl)
      | inr other ↦ absurd (ground arith)
    ]
  ]

module _ {ℓ κ} {A : Type ℓ} {V : Type κ} ⦃e : HasEq A⦄ (key : V → A) where
  -- Under keys without a repetition, at most one value has a given key.
  pub count_key :
      (k : A) (vs : List V)
      → Unique (map key vs)
      → count_if (λ v. key v == k) vs ≡ (if contains k (map key vs) then 1 else 0)
  count_key k [] u = refl
  count_key k (v ∷ vs) u = elim (Bool-cases (key v == k)) [
    | inl same ↦
        let e' : key v ≡ k = eq_of_beq same in
        let found : (k == key v) ≡ true = (e.eqb_iff k (key v)).1 (sym e') in
        let gone : contains k (map key vs) ≡ false =
          subst (λ a. contains a (map key vs) ≡ false) e' u.0 in
        ground (arith, count_key k vs)
    | inr other ↦ ground (arith, count_key k vs, e.eqb_iff (key v) k, e.eqb_iff k (key v))
  ]

module _ {ℓ} {B : Type ℓ} where
  -- Tests that agree on every element count alike.
  pub count_if-congr :
      (p q : B → Bool) (bs : List B) → All (λ b. p b ≡ q b) bs → count_if p bs ≡ count_if q bs
  count_if-congr p q [] h = refl
  count_if-congr p q (b ∷ bs) h = ground (arith, count_if-congr p q bs h.1)
