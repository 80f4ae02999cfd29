-- ===== src/Numbers/Sorting.antt =====
-- Python's `sorted`: a stable sort, here by insertion, over any Boolean test for "may come first".
use paper_trading_agent.Base.{
  ℕ, zero, suc, ◌≤◌, ◌≡◌, refl, ap, ◌∙◌, subst, map, inl, inr, Bool, true, false, not, some, List,
  [], ◌∷◌, ◌++◌, All-append, arith, if◌then◌else◌, Bool-cases, length, get_elem?, count_if, All,
  All-get_elem?,
}
use mathlib.Core.Option.{some-injective}

module _ {ℓ} {A : Type ℓ} (before : A → A → Bool) where
  pub insert_sorted : A → List A → List A
  insert_sorted x [] = x ∷ []
  insert_sorted x (y ∷ ys) = if before x y then x ∷ y ∷ ys else y ∷ insert_sorted x ys

  unfoldable pub sorted : List A → List A
  unfolding insert_sorted
  sorted [] = []
  sorted (x ∷ xs) = insert_sorted x (sorted xs)

  -- Each element may stand before all that follow it.
  abbrev pub IsSorted : List A → Type 0
  IsSorted [] = Unit
  IsSorted (x ∷ xs) = All (λ y. before x y ≡ true) xs × IsSorted xs

  pub length-insert_sorted : (x : A) (xs : List A) → length (insert_sorted x xs) ≡ suc (length xs)
  unfolding insert_sorted
  length-insert_sorted x [] = refl
  length-insert_sorted x (y ∷ ys) = ground (arith, length-insert_sorted x ys)

  pub length-sorted : (xs : List A) → length (sorted xs) ≡ length xs
  unfolding sorted
  length-sorted [] = refl
  length-sorted (x ∷ xs) = omega (arith, length-insert_sorted x (sorted xs), length-sorted xs)

  -- Sorting keeps how many elements pass any test.
  pub count_if-insert_sorted :
      (p : A → Bool) (x : A) (xs : List A) → count_if p (insert_sorted x xs) ≡ count_if p (x ∷ xs)
  unfolding insert_sorted
  count_if-insert_sorted p x [] = refl
  count_if-insert_sorted p x (y ∷ ys) = ground (arith, count_if-insert_sorted p x ys)

  pub count_if-sorted : (p : A → Bool) (xs : List A) → count_if p (sorted xs) ≡ count_if p xs
  unfolding sorted
  count_if-sorted p [] = refl
  count_if-sorted p (x ∷ xs) =
      ground (arith, count_if-insert_sorted p x (sorted xs), count_if-sorted p xs)

  pub All-insert_sorted {κ} :
      (P : A → Type κ) (x : A) (xs : List A) → P x → All P xs → All P (insert_sorted x xs)
  unfolding insert_sorted
  All-insert_sorted P x [] h hs = (h, tt)
  All-insert_sorted P x (y ∷ ys) h (hy, hs) = elim (Bool-cases (before x y)) [
    | inl e ↦ rw e (h, (hy, hs))
    | inr e ↦ rw e (hy, All-insert_sorted P x ys h hs)
  ]

  pub All-sorted {κ} : (P : A → Type κ) (xs : List A) → All P xs → All P (sorted xs)
  unfolding sorted
  All-sorted P [] h = tt
  All-sorted P (x ∷ xs) (h, hs) = All-insert_sorted P x (sorted xs) h (All-sorted P xs hs)

  All-of-insert_sorted {κ} :
      (P : A → Type κ) (x : A) (xs : List A) → All P (insert_sorted x xs) → P x × All P xs
  unfolding insert_sorted
  All-of-insert_sorted P x [] h = h
  All-of-insert_sorted P x (y ∷ ys) h = elim (Bool-cases (before x y)) [
    | inl e ↦ rw e at h
    | inr e ↦
        (let (hy, rest) = rw e at h in
          let (hx, hys) = All-of-insert_sorted P x ys rest in (hx, (hy, hys)))
  ]

  -- What holds of all of a sorted list holds of all of the list.
  pub All-of-sorted {κ} : (P : A → Type κ) (xs : List A) → All P (sorted xs) → All P xs
  unfolding sorted
  All-of-sorted P [] h = tt
  All-of-sorted P (x ∷ xs) h =
      let (hx, rest) = All-of-insert_sorted P x (sorted xs) h in (hx, All-of-sorted P xs rest)

-- A sorted list is left as it is.
module _ {ℓ} {A : Type ℓ} (before : A → A → Bool) where
  insert_sorted-front :
      (x : A) (xs : List A) → All (λ y. before x y ≡ true) xs → insert_sorted before x xs ≡ x ∷ xs
  unfolding insert_sorted
  insert_sorted-front x [] h = refl
  insert_sorted-front x (y ∷ ys) h = rw h.0 refl

  pub sorted_of_IsSorted : (xs : List A) → IsSorted before xs → sorted before xs ≡ xs
  unfolding sorted
  sorted_of_IsSorted [] h = refl
  sorted_of_IsSorted (x ∷ xs) (h, hs) = rw (sorted_of_IsSorted xs hs) (insert_sorted-front x xs h)

  pub IsSorted-append_one :
      (xs : List A) (y : A)
      → IsSorted before xs
      → All (λ x. before x y ≡ true) xs
      → IsSorted before (xs ++ y ∷ [])
  IsSorted-append_one [] y h k = (tt, tt)
  IsSorted-append_one (x ∷ xs) y (h, hs) (k, ks) =
      (All-append (λ z. before x z ≡ true) xs (y ∷ []) h (k, tt), IsSorted-append_one xs y hs ks)

-- What makes a test an order that `sorted` can be used with.
pub record IsOrder {ℓ} {A : Type ℓ} (before : A → A → Bool) : Type ℓ where
  pub trans : (a b c : A) → before a b ≡ true → before b c ≡ true → before a c ≡ true
  pub total : (a b : A) → before a b ≡ false → before b a ≡ true

module _ {ℓ} {A : Type ℓ} (before : A → A → Bool) (order : IsOrder before) where
  pub before_refl : (a : A) → before a a ≡ true
  before_refl a = elim (Bool-cases (before a a)) [ inl e ↦ e | inr e ↦ order.total a a e ]

  All-before :
      (x y : A) (ys : List A)
      → before x y ≡ true
      → All (λ z. before y z ≡ true) ys
      → All (λ z. before x z ≡ true) ys
  All-before x y [] h hs = tt
  All-before x y (z ∷ zs) h (hz, hs) = (order.trans x y z h hz, All-before x y zs h hs)

  insert_sorted-IsSorted :
      (x : A) (xs : List A) → IsSorted before xs → IsSorted before (insert_sorted before x xs)
  unfolding insert_sorted
  insert_sorted-IsSorted x [] h = (tt, tt)
  insert_sorted-IsSorted x (y ∷ ys) (hy, hs) = elim (Bool-cases (before x y)) [
    | inl e ↦ rw e ((e, All-before x y ys e hy), (hy, hs))
    | inr e ↦ rw e (
      All-insert_sorted before (λ z. before y z ≡ true) x ys (order.total x y e) hy,
      insert_sorted-IsSorted x ys hs,
    )
  ]

  pub sorted-IsSorted : (xs : List A) → IsSorted before (sorted before xs)
  unfolding sorted
  sorted-IsSorted [] = tt
  sorted-IsSorted (x ∷ xs) = insert_sorted-IsSorted x (sorted before xs) (sorted-IsSorted xs)

  -- In a sorted list at least `i + 1` elements may stand before the one at position `i`.
  pub le-count_before :
      (xs : List A) (i : ℕ) (v : A)
      → IsSorted before xs
      → get_elem? xs i ≡ some v
      → suc i ≤ count_if (λ x. before x v) xs
  le-count_before [] i v h e = cc
  le-count_before (x ∷ xs) zero v h e = ground (arith, before_refl v)
  le-count_before (x ∷ xs) (suc i) v h e =
      ground
        (arith, le-count_before xs i v h.1 e, All-get_elem? (λ y. before x y ≡ true) xs i h.0 e)

  count_not_before_zero :
      (v : A) (xs : List A)
      → All (λ y. before v y ≡ true) xs
      → count_if (λ x. not (before v x)) xs ≡ 0
  count_not_before_zero v [] h = refl
  count_not_before_zero v (x ∷ xs) h = ground (arith, count_not_before_zero v xs h.1)

  -- And at most `i` elements must stand before it.
  pub count_strictly_before-le :
      (xs : List A) (i : ℕ) (v : A)
      → IsSorted before xs
      → get_elem? xs i ≡ some v
      → count_if (λ x. not (before v x)) xs ≤ i
  count_strictly_before-le [] i v h e = cc
  count_strictly_before-le (x ∷ xs) zero v h e =
      subst (λ w. count_if (λ y. not (before w y)) (x ∷ xs) ≤ 0) (some-injective _ _ e)
        (rw (before_refl x) (omega (arith, count_not_before_zero x xs h.0)))
  count_strictly_before-le (x ∷ xs) (suc i) v h e =
      ground (arith, count_strictly_before-le xs i v h.1 e)

-- A last element that no other may stand before comes first.
module _ {ℓ} {A : Type ℓ} (before : A → A → Bool) where
  pub sorted-last_first :
      (x : A) (xs : List A)
      → All (λ y. before y x ≡ false) xs
      → sorted before (xs ++ x ∷ []) ≡ x ∷ sorted before xs
  unfolding sorted insert_sorted
  sorted-last_first x [] h = refl
  sorted-last_first x (y ∷ ys) (h, hs) = rw (sorted-last_first x ys hs) (rw h refl)

-- A map that keeps the test commutes with sorting by it.
module _ {ℓ κ} {A : Type ℓ} {B : Type κ} (before : A → A → Bool) (before' : B → B → Bool)
    (f : A → B) (keeps : (a b : A) → before' (f a) (f b) ≡ before a b) where
  map-insert_sorted :
      (x : A) (xs : List A)
      → map f (insert_sorted before x xs) ≡ insert_sorted before' (f x) (map f xs)
  unfolding insert_sorted
  map-insert_sorted x [] = refl
  map-insert_sorted x (y ∷ ys) = elim (Bool-cases (before x y)) [
    | inl e ↦ rw (keeps x y) (rw e refl)
    | inr e ↦ rw (keeps x y) (rw e (ap (λ zs. f y ∷ zs) (map-insert_sorted x ys)))
  ]

  pub map-sorted : (xs : List A) → map f (sorted before xs) ≡ sorted before' (map f xs)
  unfolding sorted
  map-sorted [] = refl
  map-sorted (x ∷ xs) =
      map-insert_sorted x (sorted before xs) ∙ ap (insert_sorted before' (f x)) (map-sorted xs)
