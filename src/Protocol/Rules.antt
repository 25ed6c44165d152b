-- ===== src/Protocol/Rules.antt =====
-- One rule for each way in which the handlers branch.
use irc.Base.{Bool, true, false, ◌≡◌, refl, [], ◌∷◌, List, Option, none, some, if◌then◌else◌}

module _ {ℓ κ} {S : Type ℓ} (P : S → Type κ) where
  pub by_if : (b : Bool) {x y : S} → (b ≡ true → P x) → (b ≡ false → P y) → P (if b then x else y)
  by_if true h k = h refl
  by_if false h k = k refl

  pub by_bool :
      (b : Bool) {x y : S}
      → (b ≡ true → P x)
      → (b ≡ false → P y)
      → P (elim b [ true ↦ x | false ↦ y ])
  by_bool true h k = h refl
  by_bool false h k = k refl

module _ {ℓ κ μ} {S : Type ℓ} (P : S → Type κ) where
  pub by_option :
      {A : Type μ} (o : Option A) {x : S} {f : A → S}
      → (o ≡ none → P x)
      → ((a : A) → o ≡ some a → P (f a))
      → P (elim o [ none ↦ x | some a ↦ f a ])
  by_option none h k = h refl
  by_option (some a) h k = k a refl

  pub by_some :
      {A : Type μ} (o : Option A) {a : A} (x : S) (f : A → S)
      → o ≡ some a
      → P (f a)
      → P (elim o [ none ↦ x | some a ↦ f a ])
  by_some o x f e h = rw e h

  pub by_list :
      {A : Type μ} (xs : List A) {x : S} {f : A → List A → S}
      → (xs ≡ [] → P x)
      → ((a : A) (rest : List A) → xs ≡ a ∷ rest → P (f a rest))
      → P (elim xs [ [] ↦ x | a ∷ rest ↦ f a rest ])
  by_list [] h k = h refl
  by_list (a ∷ rest) h k = k a rest refl

-- Two branches on the same test.
module _ {ℓ κ μ} {S : Type ℓ} {T : Type κ} (R : S → T → Type μ) where
  pub both_if :
      (b : Bool) {x y : S} {u v : T}
      → (b ≡ true → R x u)
      → (b ≡ false → R y v)
      → R (if b then x else y) (if b then u else v)
  both_if true h k = h refl
  both_if false h k = k refl

module _ {ℓ κ μ ν} {S : Type ℓ} {T : Type κ} (R : S → T → Type μ) where
  pub both_option :
      {A : Type ν} (o : Option A) {x : S} {u : T} {f : A → S} {g : A → T}
      → (o ≡ none → R x u)
      → ((a : A) → o ≡ some a → R (f a) (g a))
      → R (elim o [ none ↦ x | some a ↦ f a ]) (elim o [ none ↦ u | some a ↦ g a ])
  both_option none h k = h refl
  both_option (some a) h k = k a refl
