-- ===== src/Prelude/Sorting.antt =====
-- `Array.prototype.sort`: a stable sort, as insertion from the right. `le a b` is `cmp(a, b) <= 0`.
use openboa.Prelude.Tests.{if◌then◌else◌, Bool-cases}
use openboa.Prelude.Lists.{In, All}
use mathlib.Core.Path.{◌≡◌, refl}
use mathlib.Core.Logic.{inl, inr}
use mathlib.Core.Bool.{Bool, true}
use mathlib.Core.List.{List, [], ◌∷◌, ◌++◌}
use native.Mathlib.Omega.{arith}

module _ {ℓ} {A : Type ℓ} where
  unfoldable pub insert_by : (A → A → Bool) → A → List A → List A
  insert_by le x [] = x ∷ []
  insert_by le x (y ∷ ys) = if le x y then x ∷ y ∷ ys else y ∷ insert_by le x ys

  unfoldable pub sort_by : (A → A → Bool) → List A → List A
  unfolding insert_by
  sort_by le [] = []
  sort_by le (x ∷ xs) = insert_by le x (sort_by le xs)

  -- Each entry is in order with the next one.
  abbrev pub IsSorted : (A → A → Bool) → List A → Type 0
  IsSorted le [] = Unit {0}
  IsSorted le (x ∷ []) = Unit {0}
  IsSorted le (x ∷ y ∷ ys) = (le x y ≡ true) × IsSorted le (y ∷ ys)

  IsSorted-tail : (le : A → A → Bool) (x : A) (xs : List A) → IsSorted le (x ∷ xs) → IsSorted le xs
  IsSorted-tail le x [] h = tt
  IsSorted-tail le x (y ∷ ys) h = h.1

  insert_by-IsSorted_front :
      (le : A → A → Bool) (x : A) (xs : List A) → IsSorted le (x ∷ xs) → insert_by le x xs ≡ x ∷ xs
  unfolding insert_by
  insert_by-IsSorted_front le x [] h = refl
  insert_by-IsSorted_front le x (y ∷ ys) h = rw h.0

  -- A list in order stays as it is.
  pub sort_by-of_IsSorted : (le : A → A → Bool) (xs : List A) → IsSorted le xs → sort_by le xs ≡ xs
  unfolding sort_by
  sort_by-of_IsSorted le [] h = refl
  sort_by-of_IsSorted le (x ∷ xs) h =
      rw (sort_by-of_IsSorted le xs (IsSorted-tail le x xs h)) (insert_by-IsSorted_front le x xs h)

  pub insert_by-All {κ} :
      (P : A → Type κ) (le : A → A → Bool) (x : A) (xs : List A)
      → P x
      → All P xs
      → All P (insert_by le x xs)
  unfolding insert_by
  insert_by-All P le x [] h hs = (h, tt)
  insert_by-All P le x (y ∷ ys) h hs = elim (Bool-cases (le x y)) [
    | inl e ↦ rw e (h, hs)
    | inr e ↦ rw e (hs.0, insert_by-All P le x ys h hs.1)
  ]

  pub sort_by-All {κ} :
      (P : A → Type κ) (le : A → A → Bool) (xs : List A) → All P xs → All P (sort_by le xs)
  unfolding sort_by
  sort_by-All P le [] h = tt
  sort_by-All P le (x ∷ xs) h = insert_by-All P le x (sort_by le xs) h.0 (sort_by-All P le xs h.1)

module _ {A : Type 0} where
  In-insert_by :
      (le : A → A → Bool) (a x : A) (xs : List A) → In a (x ∷ xs) → In a (insert_by le x xs)
  unfolding insert_by
  In-insert_by le a x [] m = m
  In-insert_by le a x (y ∷ ys) m = elim (Bool-cases (le x y)) [
    | inl e ↦ rw e m
    | inr e ↦ rw e (after m (λ n. In-insert_by le a x ys n))
  ]
    where
      after :
          In a (x ∷ y ∷ ys)
          → (In a (x ∷ ys) → In a (insert_by le x ys))
          → In a (y ∷ insert_by le x ys)
      after (inl e) ih = inr (ih (inl e))
      after (inr (inl e)) ih = inl e
      after (inr (inr n)) ih = inr (ih (inr n))

  -- Sorting loses no entry.
  pub In-sort_by : (le : A → A → Bool) (a : A) (xs : List A) → In a xs → In a (sort_by le xs)
  unfolding sort_by
  In-sort_by le a [] m = m
  In-sort_by le a (x ∷ xs) (inl e) = In-insert_by le a x (sort_by le xs) (inl e)
  In-sort_by le a (x ∷ xs) (inr m) =
      In-insert_by le a x (sort_by le xs) (inr (In-sort_by le a xs m))

module _ {ℓ} {A : Type ℓ} (le : A → A → Bool) where
  insert_by-append :
      (x z : A) (xs : List A)
      → le x z ≡ true
      → insert_by le x (xs ++ z ∷ []) ≡ insert_by le x xs ++ z ∷ []
  unfolding insert_by
  insert_by-append x z [] h = rw h
  insert_by-append x z (y ∷ ys) h = ground (arith, insert_by-append x z ys h)

  -- An entry that is not before any other stays at the end.
  pub sort_by-append_last :
      (z : A) (xs : List A)
      → All (λ x. le x z ≡ true) xs
      → sort_by le (xs ++ z ∷ []) ≡ sort_by le xs ++ z ∷ []
  unfolding sort_by
  sort_by-append_last z [] h = refl
  sort_by-append_last z (x ∷ xs) h =
      rw (sort_by-append_last z xs h.1) (insert_by-append x z (sort_by le xs) h.0)
