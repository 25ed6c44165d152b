-- ===== src/Map/Sorted.antt =====
-- The keys of a map rise along its entries, so no key stands twice.
use Prim.Native.Nat.{Ordering}
use irc.Base.{◌≡◌, refl, [], ◌∷◌, none, arith, Ord}
use irc.Map.{Map, lookup, insert, erase, modify, map_values}

module _ {ℓ κ} {K : Type ℓ} {V : Type κ} ⦃o : Ord K⦄ where
  abbrev pub Above : K → Map K V → Type ℓ
  Above k [] = Unit
  Above k ((j, v) ∷ m) = (o.cmp k j ≡ Ordering.lt) × Above k m

  abbrev pub Sorted : Map K V → Type ℓ
  Sorted [] = Unit
  Sorted ((k, v) ∷ m) = Above k m × Sorted m

  pub Above-trans : (k j : K) (m : Map K V) → o.cmp k j ≡ Ordering.lt → Above j m → Above k m
  Above-trans k j [] h a = tt
  Above-trans k j ((i, v) ∷ m) h a = (o.cmp_trans k j i h a.0, Above-trans k j m h a.1)

  pub lookup-Above : (k : K) (m : Map K V) → Above k m → lookup k m ≡ none
  unfolding lookup
  lookup-Above k [] a = refl
  lookup-Above k ((j, v) ∷ m) a = ground (arith, lookup-Above k m, o.cmp_eq j k, o.cmp_refl k)

  insert-Above :
      (j k : K) (v : V) (m : Map K V) → o.cmp j k ≡ Ordering.lt → Above j m → Above j (insert k v m)
  unfolding insert
  insert-Above j k v [] h a = (h, tt)
  insert-Above j k v ((i, w) ∷ m) h a = ground (arith, insert-Above j k v m)

  pub insert-Sorted : (k : K) (v : V) (m : Map K V) → Sorted m → Sorted (insert k v m)
  unfolding insert
  insert-Sorted k v [] s = (tt, tt)
  insert-Sorted k v ((i, w) ∷ m) s = ground (
    arith,
    insert-Sorted k v m,
    insert-Above i k v m,
    Above-trans k i m,
    o.cmp_gt k i,
    o.cmp_eq k i,
  )

  erase-Above : (j k : K) (m : Map K V) → Above j m → Above j (erase k m)
  unfolding erase
  erase-Above j k [] a = tt
  erase-Above j k ((i, w) ∷ m) a = ground (arith, erase-Above j k m)

  pub erase-Sorted : (k : K) (m : Map K V) → Sorted m → Sorted (erase k m)
  unfolding erase
  erase-Sorted k [] s = tt
  erase-Sorted k ((i, w) ∷ m) s = ground (arith, erase-Sorted k m, erase-Above i k m)

  modify-Above : (j k : K) (f : V → V) (m : Map K V) → Above j m → Above j (modify k f m)
  unfolding modify
  modify-Above j k f [] a = tt
  modify-Above j k f ((i, w) ∷ m) a = ground (arith, modify-Above j k f m)

  pub modify-Sorted : (k : K) (f : V → V) (m : Map K V) → Sorted m → Sorted (modify k f m)
  unfolding modify
  modify-Sorted k f [] s = tt
  modify-Sorted k f ((i, w) ∷ m) s = ground (arith, modify-Sorted k f m, modify-Above i k f m)

module _ {ℓ κ μ} {K : Type ℓ} {V : Type κ} {W : Type μ} ⦃o : Ord K⦄ (g : V → W) where
  map_values-Above : (k : K) (m : Map K V) → Above k m → Above k (map_values g m)
  unfolding map_values
  map_values-Above k [] a = tt
  map_values-Above k ((i, w) ∷ m) a = (a.0, map_values-Above k m a.1)

  pub map_values-Sorted : (m : Map K V) → Sorted m → Sorted (map_values g m)
  unfolding map_values
  map_values-Sorted [] s = tt
  map_values-Sorted ((i, w) ∷ m) s = (map_values-Above i m s.0, map_values-Sorted m s.1)
