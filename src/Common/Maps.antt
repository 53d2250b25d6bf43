-- ===== src/Common/Maps.antt =====
-- A JavaScript `Map` or `Set` keyed by strings, as an association list in insertion order.
use Prim.Native.Nat.{◌+◌, ◌≤◌, ◌<◌}
use Prim.Native.String.{String}
use mathlib.Core.Path.{◌≡◌, refl}
use mathlib.Core.Logic.{◌≢◌}
use mathlib.Core.Bool.{Bool, true, false}
use mathlib.Core.Option.{Option, none, some}
use mathlib.Core.List.{List, [], ◌∷◌}
use native.Mathlib.Omega.{arith}
use text.Mathlib.Text.{◌==◌ as str_eq}
use text.Mathlib.TextEquality.{eq_iff}
use implement_offering_valid.Common.Tests.{if◌then◌else◌}
use implement_offering_valid.Common.Lists.{length}

abbrev pub Dict {ℓ} : Type ℓ → Type ℓ
Dict V = List (String × V)

module _ {ℓ} {V : Type ℓ} where
  -- `m.get(k)`
  unfoldable pub lookup : String → Dict V → Option V
  lookup key [] = none
  lookup key (e ∷ rest) = if str_eq e.0 key then some e.1 else lookup key rest

  -- `m.set(k, v)`: an old key keeps its place, a new one comes last.
  unfoldable pub insert : String → V → Dict V → Dict V
  insert key new [] = (key, new) ∷ []
  insert key new (e ∷ rest) = if str_eq e.0 key then (key, new) ∷ rest else e ∷ insert key new rest

  -- `m.delete(k)`
  unfoldable pub erase : String → Dict V → Dict V
  erase key [] = []
  erase key (e ∷ rest) = let kept = erase key rest in if str_eq e.0 key then kept else e ∷ kept

  -- `m.has(k)`
  unfoldable pub contains : String → Dict V → Bool
  unfolding lookup
  contains key m = elim (lookup key m) [ none ↦ false | some _ ↦ true ]

  -- What each update leaves under every key.
  pub lookup-insert :
      (key other : String) (new : V) (m : Dict V)
      → lookup other (insert key new m) ≡ (if str_eq key other then some new else lookup other m)
  unfolding lookup insert
  lookup-insert key other new [] = refl
  lookup-insert key other new (e ∷ rest) =
      ground (
        arith,
        lookup-insert key other new rest,
        eq_iff e.0 other,
        eq_iff key other,
        eq_iff e.0 key,
      )

  pub lookup-erase :
      (key other : String) (m : Dict V)
      → lookup other (erase key m) ≡ (if str_eq key other then none else lookup other m)
  unfolding lookup erase
  lookup-erase key other [] = ground arith
  lookup-erase key other (e ∷ rest) =
      ground
        (arith, lookup-erase key other rest, eq_iff e.0 other, eq_iff key other, eq_iff e.0 key)

  pub length-insert : (k : String) (v : V) (m : Dict V) → length (insert k v m) ≤ length m + 1
  unfolding insert
  length-insert k v [] = omega arith
  length-insert k v ((j, w) ∷ m) = ground (arith, length-insert k v m)

  pub length-erase : (k : String) (m : Dict V) → length (erase k m) ≤ length m
  unfolding erase
  length-erase k [] = omega arith
  length-erase k ((j, w) ∷ m) = ground (arith, length-erase k m)

  pub length-erase_found :
      (k : String) (v : V) (m : Dict V) → lookup k m ≡ some v → length (erase k m) < length m
  unfolding lookup erase
  length-erase_found k v [] h = absurd (cc)
  length-erase_found k v ((j, w) ∷ m) h = ground (arith, length-erase k m, length-erase_found k v m)

-- No key is listed twice, as in every `Map`.
module _ {ℓ} {V : Type ℓ} where
  abbrev pub HasUniqueKeys : Dict V → Type ℓ
  HasUniqueKeys [] = Unit
  HasUniqueKeys ((k, v) ∷ m) = (lookup k m ≡ none) × HasUniqueKeys m

  pub insert-HasUniqueKeys :
      (k : String) (v : V) (m : Dict V) → HasUniqueKeys m → HasUniqueKeys (insert k v m)
  unfolding lookup insert
  insert-HasUniqueKeys k v [] h = (refl, tt)
  insert-HasUniqueKeys k v ((j, w) ∷ m) h =
      ground (arith, eq_iff j k, eq_iff k j, insert-HasUniqueKeys k v m h.1, lookup-insert k j v m)

  pub erase-HasUniqueKeys : (k : String) (m : Dict V) → HasUniqueKeys m → HasUniqueKeys (erase k m)
  unfolding lookup erase
  erase-HasUniqueKeys k [] h = tt
  erase-HasUniqueKeys k ((j, w) ∷ m) h =
      ground (arith, eq_iff j k, erase-HasUniqueKeys k m h.1, lookup-erase k j m)

  -- Every key of the first map is a key of the second.
  abbrev pub IsCovered {κ} : {W : Type κ} → Dict W → Dict V → Type ℓ
  IsCovered [] m = Unit
  IsCovered ((k, w) ∷ es) m = (lookup k m ≢ none) × IsCovered es m
