-- ===== src/Chat/Ledger/Latest.antt =====
-- The loops of src/chat/core/ledger.ts that keep the latest record of each key.
use openboa.Prelude.{
  String, ◌≡◌, refl, ap, ◌∙◌, true, Bool, List, [], ◌∷◌, ◌++◌, All, inl, inr, Bool-cases, filter,
  eq_refl,
}
use openboa.Prelude.JsMap.{set, values}
use openboa.Chat.Ledger.{latest_by, latest_from}

pub filter_holds {ℓ} :
    {A : Type ℓ} (p : A → Bool) (xs : List A) → All (λ x. p x ≡ true) (filter p xs)
filter_holds p [] = tt
filter_holds p (x ∷ xs) = elim (Bool-cases (p x)) [
  | inl t ↦ rw t (t, filter_holds p xs)
  | inr t ↦ rw t (filter_holds p xs)
]

module _ {ℓ} {V : Type ℓ} (key : V → String) where
  set-same : (k : String) (x y : V) → key y ≡ k → set (key y) y ((k, x) ∷ []) ≡ (k, y) ∷ []
  unfolding set
  set-same k x y e = rw (e, eq_refl k) refl

  latest_from-one :
      (k : String) (x v : V) (vs : List V)
      → key v ≡ k
      → All (λ y. key y ≡ k) vs
      → values (latest_from key ((k, x) ∷ []) (vs ++ v ∷ [])) ≡ v ∷ []
  unfolding latest_from values
  latest_from-one k x v [] e h = ap values (set-same k x v e)
  latest_from-one k x v (y ∷ ys) e h =
      ap (λ t. values (latest_from key t (ys ++ v ∷ []))) (set-same k x y (h.0))
      ∙ latest_from-one k y v ys e h.1

  -- Of records that share their key only the last one stays.
  pub latest_by-one :
      (k : String) (v : V) (vs : List V)
      → key v ≡ k
      → All (λ y. key y ≡ k) vs
      → values (latest_by key (vs ++ v ∷ [])) ≡ v ∷ []
  unfolding latest_by latest_from set values
  latest_by-one k v [] e h = refl
  latest_by-one k v (y ∷ ys) e h =
      ap (λ t. values (latest_from key ((t, y) ∷ []) (ys ++ v ∷ []))) (h.0)
      ∙ latest_from-one k y v ys e h.1
