-- ===== src/Prelude/Dict.antt =====
-- Go maps whose keys are byte strings or byte arrays, as association lists.
use mathlib.Core.Path.{◌≡◌, refl}
use mathlib.Core.Option.{Option, none, some}
use mathlib.Core.List.{List, [], ◌∷◌}
use native.Mathlib.Omega.{arith}
use gateway_mt.Prelude.Tests.{if◌then◌else◌}
use gateway_mt.Prelude.Bytes.{Bytes, eq_bytes}
use gateway_mt.Prelude.Bytes.Order.{eq_bytes_sound, eq_bytes_refl}

abbrev pub Dict {ℓ} : Type ℓ → Type ℓ
Dict V = List (Bytes × V)

module _ {ℓ} {V : Type ℓ} where
  unfoldable pub lookup : Bytes → Dict V → Option V
  lookup k [] = none
  lookup k ((j, v) ∷ m) = if eq_bytes j k then some v else lookup k m

  unfoldable pub insert : Bytes → V → Dict V → Dict V
  insert k v [] = (k, v) ∷ []
  insert k v ((j, w) ∷ m) = if eq_bytes j k then (k, v) ∷ m else (j, w) ∷ insert k v m

  unfoldable pub remove : Bytes → Dict V → Dict V
  remove k [] = []
  remove k ((j, w) ∷ m) = let rest = remove k m in if eq_bytes j k then rest else (j, w) ∷ rest

  pub lookup-insert :
      (k j : Bytes) (v : V) (m : Dict V)
      → lookup j (insert k v m) ≡ (if eq_bytes k j then some v else lookup j m)
  unfolding lookup insert
  lookup-insert k j v [] = refl
  lookup-insert k j v ((i, w) ∷ m) = ground (
    arith,
    lookup-insert k j v m,
    eq_bytes_sound i k,
    eq_bytes_sound i j,
    eq_bytes_sound k j,
    eq_bytes_refl j,
  )

  pub lookup-remove :
      (k j : Bytes) (m : Dict V)
      → lookup j (remove k m) ≡ (if eq_bytes k j then none else lookup j m)
  unfolding lookup remove
  lookup-remove k j [] = ground arith
  lookup-remove k j ((i, w) ∷ m) = ground (
    arith,
    lookup-remove k j m,
    eq_bytes_sound i k,
    eq_bytes_sound i j,
    eq_bytes_sound k j,
    eq_bytes_refl j,
  )
