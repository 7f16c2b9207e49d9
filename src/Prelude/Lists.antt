-- ===== src/Prelude/Lists.antt =====
-- Lists measured by native numbers, predicates by recursion, and the array methods of the source.
use Prim.Native.Nat.{ℕ, zero, suc, ◌+◌}
use mathlib.Core.Path.{◌≡◌, refl, sym, ap, subst, ◌∙◌}
use mathlib.Core.Logic.{◌⊎◌, inl, inr}
use mathlib.Core.Bool.{Bool, true, false, ◌&&◌, ◌||◌}
use mathlib.Core.List.{List, [], ◌∷◌, ◌++◌}
use mathlib.Core.Option.{Option, none, some, some-injective}
use native.Mathlib.Omega.{arith}
use openboa.Prelude.Tests.{if◌then◌else◌, Bool-cases}

module _ {ℓ} {A : Type ℓ} where
  abbrev pub length : List A → ℕ
  length [] = 0
  length (x ∷ xs) = suc (length xs)

  -- `xs.filter(p)`
  abbrev pub filter : (A → Bool) → List A → List A
  filter p [] = []
  filter p (x ∷ xs) = if p x then x ∷ filter p xs else filter p xs

  -- `xs.some(p)` and `xs.every(p)`
  abbrev pub any : (A → Bool) → List A → Bool
  any p [] = false
  any p (x ∷ xs) = p x || any p xs

  abbrev pub all : (A → Bool) → List A → Bool
  all p [] = true
  all p (x ∷ xs) = p x && all p xs

  -- `xs.find(p) ?? null`
  abbrev pub find : (A → Bool) → List A → Option A
  find p [] = none
  find p (x ∷ xs) = if p x then some x else find p xs

  -- `xs.at(-1)` and `xs.at(0)`
  abbrev pub last? : List A → Option A
  last? [] = none
  last? (x ∷ []) = some x
  last? (x ∷ y ∷ xs) = last? (y ∷ xs)

  abbrev pub head? : List A → Option A
  head? [] = none
  head? (x ∷ xs) = some x

  abbrev pub take : ℕ → List A → List A
  take zero xs = []
  take (suc n) [] = []
  take (suc n) (x ∷ xs) = x ∷ take n xs

  abbrev pub drop : ℕ → List A → List A
  drop zero xs = xs
  drop (suc n) [] = []
  drop (suc n) (x ∷ xs) = drop n xs

-- `x` stands in the list.
abbrev pub In : {A : Type 0} → A → List A → Type 0
In x [] = ⊥
In x (y ∷ ys) = (x ≡ y) ⊎ In x ys

-- A predicate that every entry meets; it computes to tuples.
abbrev pub All {ℓ κ} : {A : Type ℓ} → (A → Type κ) → List A → Type κ
All P [] = Unit
All P (x ∷ xs) = P x × All P xs

-- Every entry of the first list stands in the second.
abbrev pub Included : {A : Type 0} → List A → List A → Type 0
Included {A} xs ys = (x : A) → In x xs → In x ys

module _ {ℓ κ} {A : Type ℓ} (P : A → Type κ) where
  pub All-append : (xs ys : List A) → All P xs → All P ys → All P (xs ++ ys)
  All-append [] ys hx hy = hy
  All-append (x ∷ xs) ys hx hy = (hx.0, All-append xs ys hx.1 hy)

  pub All-filter : (p : A → Bool) (xs : List A) → All P xs → All P (filter p xs)
  All-filter p [] h = tt
  All-filter p (x ∷ xs) h = elim (Bool-cases (p x)) [
    | inl e ↦ rw e (h.0, All-filter p xs h.1)
    | inr e ↦ rw e (All-filter p xs h.1)
  ]

module _ {A : Type 0} where
  pub In-All : (P : A → Type 0) (x : A) (xs : List A) → All P xs → In x xs → P x
  In-All P x [] h m = absurd m
  In-All P x (y ∷ ys) h (inl e) = subst P (sym e) h.0
  In-All P x (y ∷ ys) h (inr m) = In-All P x ys h.1 m

  pub In-append_left : (x : A) (xs ys : List A) → In x xs → In x (xs ++ ys)
  In-append_left x [] ys m = absurd m
  In-append_left x (z ∷ xs) ys (inl e) = inl e
  In-append_left x (z ∷ xs) ys (inr m) = inr (In-append_left x xs ys m)

  pub In-append_right : (x : A) (xs ys : List A) → In x ys → In x (xs ++ ys)
  In-append_right x [] ys m = m
  In-append_right x (z ∷ xs) ys m = inr (In-append_right x xs ys m)

  pub In-filter : (p : A → Bool) (x : A) (xs : List A) → In x xs → p x ≡ true → In x (filter p xs)
  In-filter p x [] m h = m
  In-filter p x (y ∷ ys) (inl e) h = rw (ap p (sym e) ∙ h) (inl e)
  In-filter p x (y ∷ ys) (inr m) h = elim (Bool-cases (p y)) [
    | inl t ↦ rw t (inr (In-filter p x ys m h))
    | inr t ↦ rw t (In-filter p x ys m h)
  ]

  pub In-of_filter :
      (p : A → Bool) (x : A) (xs : List A) → In x (filter p xs) → In x xs × (p x ≡ true)
  In-of_filter p x [] m = absurd m
  In-of_filter p x (y ∷ ys) m = filter_head (Bool-cases (p y)) m (In-of_filter p x ys)
    where
      kept :
          p y ≡ true
          → In x (y ∷ filter p ys)
          → (In x (filter p ys) → In x ys × (p x ≡ true))
          → In x (y ∷ ys) × (p x ≡ true)
      kept t (inl e) ih = (inl e, ap p e ∙ t)
      kept t (inr n) ih = let r = ih n in (inr r.0, r.1)

      filter_head :
          (p y ≡ true) ⊎ (p y ≡ false)
          → In x (if p y then y ∷ filter p ys else filter p ys)
          → (In x (filter p ys) → In x ys × (p x ≡ true))
          → In x (y ∷ ys) × (p x ≡ true)
      filter_head (inl t) m ih = kept t (rw t at m) ih
      filter_head (inr t) m ih = let r = ih (rw t at m) in (inr r.0, r.1)

  pub any_of_In : (p : A → Bool) (x : A) (xs : List A) → In x xs → p x ≡ true → any p xs ≡ true
  any_of_In p x [] m h = absurd m
  any_of_In p x (y ∷ ys) (inl e) h = rw (ap p (sym e) ∙ h)
  any_of_In p x (y ∷ ys) (inr m) h = ground (arith, any_of_In p x ys m h)

  pub In-of_any : (p : A → Bool) (xs : List A) → any p xs ≡ true → (x : A) × In x xs × (p x ≡ true)
  In-of_any p [] h = cc
  In-of_any p (y ∷ ys) h = elim (Bool-cases (p y)) [
    | inl t ↦ (y, inl refl, t)
    | inr t ↦ let (x, m, e) = In-of_any p ys (rw t at h) in (x, inr m, e)
  ]

module _ {ℓ} {A : Type ℓ} where
  pub filter-append :
      (p : A → Bool) (xs ys : List A) → filter p (xs ++ ys) ≡ filter p xs ++ filter p ys
  filter-append p [] ys = refl
  filter-append p (x ∷ xs) ys = ground (arith, filter-append p xs ys)

  pub length-append : (xs ys : List A) → length (xs ++ ys) ≡ length xs + length ys
  length-append [] ys = omega arith
  length-append (x ∷ xs) ys = omega (arith, length-append xs ys)

  pub last?-append : (xs : List A) (x : A) → last? (xs ++ x ∷ []) ≡ some x
  last?-append [] x = refl
  last?-append (y ∷ []) x = refl
  last?-append (y ∷ z ∷ xs) x = last?-append (z ∷ xs) x

  pub find-append_none :
      (p : A → Bool) (xs ys : List A) → find p xs ≡ none → find p (xs ++ ys) ≡ find p ys
  find-append_none p [] ys h = refl
  find-append_none p (x ∷ xs) ys h = ground (arith, find-append_none p xs ys)

  pub find-append_some :
      (p : A → Bool) (xs ys : List A) (a : A) → find p xs ≡ some a → find p (xs ++ ys) ≡ some a
  find-append_some p [] ys a h = cc
  find-append_some p (x ∷ xs) ys a h = ground (arith, find-append_some p xs ys a)

  pub find_holds : (p : A → Bool) (xs : List A) (a : A) → find p xs ≡ some a → p a ≡ true
  find_holds p [] a h = cc
  find_holds p (x ∷ xs) a h = ground (arith, find_holds p xs a)

module _ {ℓ} {A : Type ℓ} (eq : A → A → Bool) where
  dedupe_from : List A → List A → List A
  dedupe_from seen [] = []
  dedupe_from seen (x ∷ xs) = elim (any (λ y. eq y x) seen) [
    | true ↦ dedupe_from seen xs
    | false ↦ x ∷ dedupe_from (x ∷ seen) xs
  ]

  -- `Array.from(new Set(xs))`: the first occurrence of each entry stays.
  unfoldable pub dedupe_by : List A → List A
  unfolding dedupe_from
  dedupe_by xs = dedupe_from [] xs

module _ {ℓ} {A : Type ℓ} (eq : A → A → Bool) (p : A → Bool)
    (respects : (x y : A) → eq x y ≡ true → p x ≡ p y) where
  seen_holds :
      (x : A) (seen : List A) → any (λ y. eq y x) seen ≡ true → p x ≡ true → any p seen ≡ true
  seen_holds x [] h e = cc
  seen_holds x (y ∷ seen) h e = elim (Bool-cases (eq y x)) [
    | inl t ↦ rw (respects y x t ∙ e)
    | inr t ↦ ground (arith, seen_holds x seen)
  ]

  any-dedupe_from :
      (seen xs : List A) → (any p seen || any p (dedupe_from eq seen xs)) ≡ (any p seen || any p xs)
  unfolding dedupe_from
  any-dedupe_from seen [] = refl
  any-dedupe_from seen (x ∷ xs) = elim (Bool-cases (any (λ y. eq y x) seen)) [
    | inl t ↦ rw (t, dedupe_from) (ground (arith, any-dedupe_from seen xs, seen_holds x seen t))
    | inr t ↦ rw (t, dedupe_from) (ground (arith, any-dedupe_from (x ∷ seen) xs))
  ]

  -- A test that respects the equality does not see repetitions.
  pub any-dedupe_by : (xs : List A) → any p (dedupe_by eq xs) ≡ any p xs
  unfolding dedupe_by
  any-dedupe_by xs = any-dedupe_from [] xs

pub All-map {ℓ κ μ} :
    {A : Type ℓ} (P : A → Type κ) (Q : A → Type μ) (xs : List A)
    → ((x : A) → P x → Q x)
    → All P xs
    → All Q xs
All-map P Q [] f h = tt
All-map P Q (x ∷ xs) f h = (f x h.0, All-map P Q xs f h.1)

module _ {ℓ κ} {A : Type ℓ} where
  pub All-both : (P Q : A → Type κ) (xs : List A) → All P xs → All Q xs → All (λ x. P x × Q x) xs
  All-both P Q [] h k = tt
  All-both P Q (x ∷ xs) h k = ((h.0, k.0), All-both P Q xs h.1 k.1)

  pub find-All :
      (P : A → Type κ) (p : A → Bool) (xs : List A) (a : A) → All P xs → find p xs ≡ some a → P a
  find-All P p [] a h e = absurd (cc)
  find-All P p (x ∷ xs) a h e = elim (Bool-cases (p x)) [
    | inl t ↦ subst P (some-injective x a (rw t at e)) h.0
    | inr t ↦ find-All P p xs a h.1 (rw t at e)
  ]

-- Two tests that agree on the entries keep the same entries.
pub filter_ext :
    {A : Type 0} (p q : A → Bool) (xs : List A)
    → ((x : A) → In x xs → p x ≡ q x)
    → filter p xs ≡ filter q xs
filter_ext p q [] h = refl
filter_ext p q (x ∷ xs) h = rw (h x (inl refl), filter_ext p q xs (λ y m. h y (inr m)))
