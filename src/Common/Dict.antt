-- ===== src/Common/Dict.antt =====
-- Go maps with string keys. A map is the list of its entries in the order of their keys, as
-- encoding/json writes it; a map that is nil reads as the empty one.
use mathlib.Core.Path.{◌≡◌, refl}
use mathlib.Core.Bool.{true}
use mathlib.Core.Option.{Option, none, some}
use mathlib.Core.List.{List, [], ◌∷◌}
use native.Mathlib.Omega.{arith}
use infra_shelf.Common.Tests.{if◌then◌else◌, Bool-cases}
use mathlib.Core.Logic.{inl, inr}
use infra_shelf.Common.Failure.{Bytes}
use infra_shelf.Common.Text.{str_eq, str_eq_iff, str_eq_refl}
use infra_shelf.Common.Order.{str_lt, str_lt_trans, str_lt_connected}

abbrev pub Dict {ℓ} : Type ℓ → Type ℓ
Dict V = List (Bytes × V)

-- The value of a Go map: the empty text for a missing key.
abbrev pub value_of : Option Bytes → Bytes
value_of none = []
value_of (some v) = v

module _ {ℓ} {V : Type ℓ} where
  unfoldable pub lookup : Bytes → Dict V → Option V
  lookup k [] = none
  lookup k ((j, v) ∷ m) = if str_eq j k then some v else lookup k m

  unfoldable pub insert : Bytes → V → Dict V → Dict V
  insert k v [] = (k, v) ∷ []
  insert k v ((j, w) ∷ m) =
      if str_eq j k
      then (k, v) ∷ m
      else if str_lt k j
      then (k, v) ∷ (j, w) ∷ m
      else (j, w) ∷ insert k v m

  unfoldable pub delete : Bytes → Dict V → Dict V
  delete k [] = []
  delete k ((j, v) ∷ m) = let rest = delete k m in if str_eq j k then rest else (j, v) ∷ rest

  unfoldable pub keys : Dict V → List Bytes
  keys [] = []
  keys ((k, v) ∷ m) = k ∷ keys m

  pub lookup-insert :
      (k j : Bytes) (v : V) (m : Dict V)
      → lookup j (insert k v m) ≡ (if str_eq k j then some v else lookup j m)
  unfolding lookup insert
  lookup-insert k j v [] = refl
  lookup-insert k j v ((i, w) ∷ m) =
      ground (arith, str_eq_iff k j, str_eq_iff i k, str_eq_iff i j, lookup-insert k j v m)

  pub lookup-delete :
      (k j : Bytes) (m : Dict V) → lookup j (delete k m) ≡ (if str_eq k j then none else lookup j m)
  unfolding lookup delete
  lookup-delete k j [] = ground arith
  lookup-delete k j ((i, v) ∷ m) =
      ground (arith, str_eq_iff k j, str_eq_iff i k, str_eq_iff i j, lookup-delete k j m)

  pub lookup-insert_self : (k : Bytes) (v : V) (m : Dict V) → lookup k (insert k v m) ≡ some v
  lookup-insert_self k v m = rw (lookup-insert, str_eq_refl)

  -- Every key of the map is after `k`.
  abbrev pub IsBefore : Bytes → Dict V → Type 0
  IsBefore k [] = Unit
  IsBefore k ((j, v) ∷ m) = str_lt k j ≡ true

  -- The keys ascend, so that each stands once.
  abbrev pub IsSorted : Dict V → Type 0
  IsSorted [] = Unit
  IsSorted ((k, v) ∷ m) = IsBefore k m × IsSorted m

  IsBefore-insert :
      (i k : Bytes) (v : V) (m : Dict V)
      → IsBefore i m
      → str_lt i k ≡ true
      → IsBefore i (insert k v m)
  unfolding insert
  IsBefore-insert i k v [] h l = l
  IsBefore-insert i k v ((j, w) ∷ m) h l = ground arith

  pub insert-IsSorted : (k : Bytes) (v : V) (m : Dict V) → IsSorted m → IsSorted (insert k v m)
  unfolding insert
  insert-IsSorted k v [] h = (tt, tt)
  insert-IsSorted k v ((j, w) ∷ m) h =
      ground (
        arith,
        str_eq_iff j k,
        str_lt_connected k j,
        IsBefore-insert j k v m,
        insert-IsSorted k v m,
      )

  IsBefore-delete : (i k : Bytes) (m : Dict V) → IsBefore i m → IsSorted m → IsBefore i (delete k m)
  unfolding delete
  IsBefore-delete i k [] h s = tt
  IsBefore-delete i k ((j, v) ∷ []) h s = ground arith
  IsBefore-delete i k ((j, v) ∷ (j', v') ∷ m) h s =
      ground (arith, str_lt_trans i j j', IsBefore-delete i k ((j', v') ∷ m))

  pub delete-IsSorted : (k : Bytes) (m : Dict V) → IsSorted m → IsSorted (delete k m)
  unfolding delete
  delete-IsSorted k [] h = tt
  delete-IsSorted k ((j, v) ∷ m) h = ground (arith, IsBefore-delete j k m, delete-IsSorted k m)

abbrev pub map_option {ℓ κ} : {V : Type ℓ} {W : Type κ} → (V → W) → Option V → Option W
map_option f none = none
map_option f (some v) = some (f v)

module _ {ℓ κ} {V : Type ℓ} {W : Type κ} (f : V → W) where
  abbrev pub map_values : Dict V → Dict W
  map_values [] = []
  map_values ((k, v) ∷ m) = (k, f v) ∷ map_values m

  pub lookup-map_values :
      (k : Bytes) (m : Dict V) → lookup k (map_values m) ≡ map_option f (lookup k m)
  unfolding lookup
  lookup-map_values k [] = refl
  lookup-map_values k ((j, v) ∷ m) = elim (Bool-cases (str_eq j k)) [
    | inl e ↦ rw e refl
    | inr e ↦ rw e (lookup-map_values k m)
  ]

  IsBefore-map_values : (k : Bytes) (m : Dict V) → IsBefore k m → IsBefore k (map_values m)
  IsBefore-map_values k [] h = tt
  IsBefore-map_values k ((j, v) ∷ m) h = h

  pub map_values-IsSorted : (m : Dict V) → IsSorted m → IsSorted (map_values m)
  map_values-IsSorted [] h = tt
  map_values-IsSorted ((k, v) ∷ m) (b, h) = (IsBefore-map_values k m b, map_values-IsSorted m h)
