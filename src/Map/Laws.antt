-- ===== src/Map/Laws.antt =====
-- What `lookup` finds after each change of a map.
use irc.Base.{
  true, false, Bool-cases, Option-cases, ◌⊎◌, inl, inr, ==_eq, ◌≡◌, refl, [], ◌∷◌, none, some,
  arith, Ord, ◌==◌, if◌then◌else◌,
}
use mathlib.Core.Option
use irc.Map.{Map, lookup, member, insert, erase, modify, keys, map_values}

module _ {ℓ κ} {K : Type ℓ} {V : Type κ} ⦃o : Ord K⦄ where
  -- A write is found under its own key and hides nothing else.
  pub lookup-insert :
      (at key : K) (value : V) (old : Map K V)
      → lookup key (insert at value old) ≡ (if at == key then some value else lookup key old)
  unfolding insert lookup
  lookup-insert at key value [] = refl
  lookup-insert at key value ((first, w) ∷ old) = ground (
    lookup-insert at key value old,
    o.cmp_gt at first,
    o.cmp_eq at first,
    o.cmp_eq first key,
    o.cmp_eq at key,
    o.cmp_refl key,
    arith,
  )

  pub lookup-erase :
      (k j : K) (m : Map K V) → lookup j (erase k m) ≡ (if k == j then none else lookup j m)
  unfolding lookup erase
  lookup-erase k j [] = ground arith
  lookup-erase k j ((i, w) ∷ m) = ground (
    arith,
    lookup-erase k j m,
    o.cmp_eq i k,
    o.cmp_eq i j,
    o.cmp_eq k j,
    o.cmp_refl j,
    o.cmp_refl k,
  )

  pub lookup-modify :
      (k j : K) (f : V → V) (m : Map K V)
      → lookup j (modify k f m) ≡ (if k == j then Option.map f (lookup j m) else lookup j m)
  unfolding lookup modify
  lookup-modify k j f [] = ground arith
  lookup-modify k j f ((i, w) ∷ m) = ground (
    arith,
    lookup-modify k j f m,
    o.cmp_eq i k,
    o.cmp_eq i j,
    o.cmp_eq k j,
    o.cmp_refl j,
    o.cmp_refl k,
  )

  pub member-insert :
      (at key : K) (value : V) (old : Map K V)
      → member key (insert at value old) ≡ (if at == key then true else member key old)
  unfolding member
  member-insert at key value old = ground (arith, lookup-insert at key value old)

  pub member-erase :
      (k j : K) (m : Map K V) → member j (erase k m) ≡ (if k == j then false else member j m)
  unfolding member
  member-erase k j m = ground (arith, lookup-erase k j m)

  -- What stands under a key after a write stood there before, written if the key is the one.
  pub lookup-modify_cases :
      (k j : K) (f : V → V) (m : Map K V) (v : V)
      → lookup j (modify k f m) ≡ some v
      → ((w : V) × (lookup j m ≡ some w) × (k ≡ j) × (f w ≡ v)) ⊎ (lookup j m ≡ some v)
  lookup-modify_cases k j f m v e = elim (Bool-cases (k == j)) [
    | inr other ↦ inr (ground (arith, lookup-modify k j f m))
    | inl same ↦ elim (Option-cases (lookup j m)) [
      | inl missing ↦ absurd (ground (arith, lookup-modify k j f m))
      | inr (w, found) ↦ inl (w, found, ==_eq k j same, ground (arith, lookup-modify k j f m))
    ]
  ]

  -- A write that keeps what it finds.
  pub modify_idle :
      (k : K) (f : V → V) (m : Map K V)
      → ((v : V) → lookup k m ≡ some v → f v ≡ v)
      → modify k f m ≡ m
  unfolding lookup modify
  modify_idle k f [] h = refl
  modify_idle k f ((i, w) ∷ m) h = elim (Bool-cases (i == k)) [
    | inl here ↦ ground (arith, here, h w)
    | inr other ↦ ground (arith, other, modify_idle k f m (λ v e. h v (ground (arith, other, e))))
  ]

  pub keys-modify : (k : K) (f : V → V) (m : Map K V) → keys (modify k f m) ≡ keys m
  unfolding keys modify
  keys-modify k f [] = refl
  keys-modify k f ((i, w) ∷ m) = ground (arith, keys-modify k f m)

module _ {ℓ κ μ} {K : Type ℓ} {V : Type κ} {W : Type μ} ⦃o : Ord K⦄ (g : V → W) where
  pub lookup-map_values :
      (k : K) (m : Map K V) → lookup k (map_values g m) ≡ Option.map g (lookup k m)
  unfolding lookup map_values
  lookup-map_values k [] = refl
  lookup-map_values k ((i, w) ∷ m) = ground (arith, lookup-map_values k m)

  -- A write that the view does not see.
  pub map_values-modify_same :
      (k : K) (f : V → V) (m : Map K V)
      → ((v : V) → g (f v) ≡ g v)
      → map_values g (modify k f m) ≡ map_values g m
  unfolding map_values modify
  map_values-modify_same k f [] h = refl
  map_values-modify_same k f ((i, w) ∷ m) h = ground (arith, h w, map_values-modify_same k f m h)

  -- A write that commutes with the view.
  pub map_values-modify :
      (k : K) (f : V → V) (h : W → W) (m : Map K V)
      → ((v : V) → g (f v) ≡ h (g v))
      → map_values g (modify k f m) ≡ modify k h (map_values g m)
  unfolding map_values modify
  map_values-modify k f h [] e = refl
  map_values-modify k f h ((i, w) ∷ m) e = ground (arith, e w, map_values-modify k f h m e)

  pub map_values-erase : (k : K) (m : Map K V) → map_values g (erase k m) ≡ erase k (map_values g m)
  unfolding map_values erase
  map_values-erase k [] = refl
  map_values-erase k ((i, w) ∷ m) = ground (arith, map_values-erase k m)

  pub map_values-insert :
      (k : K) (v : V) (m : Map K V) → map_values g (insert k v m) ≡ insert k (g v) (map_values g m)
  unfolding map_values insert
  map_values-insert k v [] = refl
  map_values-insert k v ((i, w) ∷ m) = ground (arith, map_values-insert k v m)
