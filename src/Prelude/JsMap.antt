-- ===== src/Prelude/JsMap.antt =====
-- `Map` with string keys: an association list in the order of insertion.
use openboa.Prelude.Tests.{if◌then◌else◌, Bool-cases}
use openboa.Prelude.Lists.{All, All-map, In}
use Prim.Native.String.{String}
use mathlib.Core.Path.{◌≡◌, refl, subst}
use mathlib.Core.Logic.{inl, inr}
use mathlib.Core.Bool.{true, false}
use mathlib.Core.List.{List, [], ◌∷◌, ◌++◌}
use mathlib.Core.Option.{Option, none, some, some-injective}
use native.Mathlib.Omega.{arith}
use text.Mathlib.Text.{◌==◌}
use text.Mathlib.TextEquality.{eq_iff}

abbrev pub JsMap {ℓ} : Type ℓ → Type ℓ
JsMap V = List (String × V)

-- The empty type at any level.
pub data Never {ℓ} : Type ℓ where

module _ {ℓ} {V : Type ℓ} where
  unfoldable pub get : String → JsMap V → Option V
  get k [] = none
  get k ((j, v) ∷ m) = if j == k then some v else get k m

  -- A key that is there keeps its place; a new one goes to the end.
  unfoldable pub set : String → V → JsMap V → JsMap V
  set k v [] = (k, v) ∷ []
  set k v ((j, w) ∷ m) = if j == k then (k, v) ∷ m else (j, w) ∷ set k v m

  unfoldable pub delete : String → JsMap V → JsMap V
  delete k [] = []
  delete k ((j, v) ∷ m) = if j == k then m else (j, v) ∷ delete k m

  unfoldable pub values : JsMap V → List V
  values [] = []
  values ((j, v) ∷ m) = v ∷ values m

  pub get-set :
      (k j : String) (v : V) (m : JsMap V)
      → get j (set k v m) ≡ (if k == j then some v else get j m)
  unfolding get set
  get-set k j v [] = refl
  get-set k j v ((i, w) ∷ m) = ground (arith, eq_iff k j, eq_iff i k, eq_iff i j, get-set k j v m)

  -- No key stands twice.
  abbrev pub Absent : String → JsMap V → Type 0
  Absent k [] = Unit {0}
  Absent k ((j, v) ∷ m) = ((j == k) ≡ false) × Absent k m

  abbrev pub Distinct : JsMap V → Type 0
  Distinct [] = Unit {0}
  Distinct ((j, v) ∷ m) = Absent j m × Distinct m

  pub values-All {κ} :
      (P : V → Type κ) (m : JsMap V) → All (λ (e : String × V). P e.1) m → All P (values m)
  unfolding values
  values-All P [] h = tt
  values-All P ((j, v) ∷ m) h = (h.0, values-All P m h.1)

  -- An entry's property survives `set`, if the new value has it.
  pub set-All {κ} :
      (P : String × V → Type κ) (k : String) (v : V) (m : JsMap V)
      → P (k, v)
      → All P m
      → All P (set k v m)
  unfolding set
  set-All P k v [] p h = (p, tt)
  set-All P k v ((j, w) ∷ m) p h = elim (Bool-cases (j == k)) [
    | inl e ↦ rw e (p, h.1)
    | inr e ↦ rw e (h.0, set-All P k v m p h.1)
  ]

  pub get-All {κ} :
      (P : String × V → Type κ) (k : String) (m : JsMap V) (v : V)
      → All P m
      → get k m ≡ some v
      → P (k, v)
  unfolding get
  get-All P k [] v h e = absurd (cc)
  get-All P k ((j, w) ∷ m) v h e = elim (Bool-cases (j == k)) [
    | inl t ↦ at_entry t (rw t at e)
    | inr t ↦ get-All P k m v h.1 (rw t at e)
  ]
    where
      at_entry : (j == k) ≡ true → some w ≡ some v → P (k, v)
      at_entry t q =
          subst (λ x. P (x, v)) ((eq_iff j k).0 t)
            (subst (λ x. P (j, x)) (some-injective w v q) h.0)

  pub get-of_All :
      (k : String) (m : JsMap V) → All (λ (e : String × V). (e.0 == k) ≡ false) m → get k m ≡ none
  unfolding get
  get-of_All k [] h = refl
  get-of_All k ((j, w) ∷ m) h = rw h.0 (get-of_All k m h.1)

module _ {ℓ} {V : Type ℓ} where
  -- A new key goes to the end.
  pub set-of_none :
      (k : String) (v : V) (m : JsMap V) → get k m ≡ none → set k v m ≡ m ++ (k, v) ∷ []
  unfolding get set
  set-of_none k v [] h = refl
  set-of_none k v ((j, w) ∷ m) h = ground (arith, set-of_none k v m)

  pub values-append :
      (k : String) (v : V) (m : JsMap V) → values (m ++ (k, v) ∷ []) ≡ values m ++ v ∷ []
  unfolding values
  values-append k v [] = refl
  values-append k v ((j, w) ∷ m) = rw (values-append k v m)

  -- A predicate of the value at a key, false where the key is missing.
  abbrev pub Found {κ} : (V → Type κ) → Option V → Type κ
  Found P none = Never
  Found P (some v) = P v

  pub Found-set {κ} :
      (P : V → Type κ) (k j : String) (v : V) (m : JsMap V)
      → ((k == j) ≡ true → P v)
      → ((k == j) ≡ false → Found P (get j m))
      → Found P (get j (set k v m))
  Found-set P k j v m hit miss = elim (Bool-cases (k == j)) [
    | inl t ↦ rw (get-set k j v m, t) (hit t)
    | inr t ↦ rw (get-set k j v m, t) (miss t)
  ]

differs_sym : (i k : String) → (i == k) ≡ false → (k == i) ≡ false
differs_sym i k h = ground (arith, eq_iff i k, eq_iff k i)

module _ {ℓ} {V : Type ℓ} where
  Absent-set :
      (k j : String) (v : V) (m : JsMap V) → (k == j) ≡ false → Absent j m → Absent j (set k v m)
  unfolding set
  Absent-set k j v [] e a = (e, tt)
  Absent-set k j v ((i, w) ∷ m) e a = elim (Bool-cases (i == k)) [
    | inl t ↦ rw t (e, a.1)
    | inr t ↦ rw t (a.0, Absent-set k j v m e a.1)
  ]

  pub Distinct-set : (k : String) (v : V) (m : JsMap V) → Distinct m → Distinct (set k v m)
  unfolding set
  Distinct-set k v [] h = (tt, tt)
  Distinct-set k v ((i, w) ∷ m) h = elim (Bool-cases (i == k)) [
    | inl t ↦ rw t (subst (λ x. Absent x m) ((eq_iff i k).0 t) h.0, h.1)
    | inr t ↦ rw t (Absent-set k i v m (differs_sym i k t) h.0, Distinct-set k v m h.1)
  ]

  Absent-All :
      (k : String) (m : JsMap V) → Absent k m → All (λ (e : String × V). (e.0 == k) ≡ false) m
  Absent-All k [] a = tt
  Absent-All k ((j, v) ∷ m) a = (a.0, Absent-All k m a.1)

  -- In a map without repetitions `set` leaves one entry with the key.
  pub set-All_at {κ} :
      (P : String × V → Type κ) (k : String) (v : V) (m : JsMap V)
      → P (k, v)
      → ((e : String × V) → (e.0 == k) ≡ false → P e)
      → Distinct m
      → All P (set k v m)
  unfolding set
  set-All_at P k v [] p others d = (p, tt)
  set-All_at P k v ((j, w) ∷ m) p others d = elim (Bool-cases (j == k)) [
    | inl t ↦
        rw t (
          p,
          All-map _ P m others (Absent-All k m (subst (λ x. Absent x m) ((eq_iff j k).0 t) d.0)),
        )
    | inr t ↦ rw t (others (j, w) t, set-All_at P k v m p others d.1)
  ]

  -- A key that is not found is none of the entries' keys.
  pub All-of_get-none :
      (k : String) (m : JsMap V) → get k m ≡ none → All (λ (e : String × V). (e.0 == k) ≡ false) m
  unfolding get
  All-of_get-none k [] h = tt
  All-of_get-none k ((j, v) ∷ m) h = elim (Bool-cases (j == k)) [
    | inl t ↦ absurd (found t (rw t at h))
    | inr t ↦ (t, All-of_get-none k m (rw t at h))
  ]
    where
      found : (j == k) ≡ true → some v ≡ none → ⊥
      found t q = cc

module _ {V : Type 0} where
  pub In-set : (k : String) (v : V) (m : JsMap V) → In v (values (set k v m))
  unfolding set values
  In-set k v [] = inl refl
  In-set k v ((j, w) ∷ m) = elim (Bool-cases (j == k)) [
    | inl t ↦ rw t (inl refl)
    | inr t ↦ rw t (inr (In-set k v m))
  ]

  pub values-set :
      (P : V → Type 0) (k : String) (v : V) (m : JsMap V)
      → P v
      → All P (values m)
      → All P (values (set k v m))
  unfolding set values
  values-set P k v [] p h = (p, tt)
  values-set P k v ((j, w) ∷ m) p h = elim (Bool-cases (j == k)) [
    | inl t ↦ rw t (p, h.1)
    | inr t ↦ rw t (h.0, values-set P k v m p h.1)
  ]
