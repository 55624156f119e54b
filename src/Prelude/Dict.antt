-- ===== src/Prelude/Dict.antt =====
-- Go maps with text keys, as association lists. The order of the list stands for the order in
-- which `range` visits the map, which Go leaves open.
use Prim.Native.String.{String}
use mathlib.Core.Path.{◌≡◌, refl}
use mathlib.Core.Option.{Option, none, some}
use mathlib.Core.List.{List, [], ◌∷◌}
use native.Mathlib.Omega.{arith}
use text.Mathlib.Text.{◌==◌}
use text.Mathlib.TextEquality.{eq_iff}
use lalia.Prelude.Tests.{if◌then◌else◌}

abbrev pub Dict {ℓ} : Type ℓ → Type ℓ
Dict V = List (String × V)

module _ {ℓ} {V : Type ℓ} where
  -- v, ok := m[k]
  unfoldable pub get : String → Dict V → Option V
  get k [] = none
  get k ((j, v) ∷ m) = if j == k then some v else get k m

  -- m[k] = v
  unfoldable pub put : String → V → Dict V → Dict V
  put k v [] = (k, v) ∷ []
  put k v ((j, w) ∷ m) = if j == k then (k, v) ∷ m else (j, w) ∷ put k v m

  -- delete(m, k)
  unfoldable pub remove : String → Dict V → Dict V
  remove k [] = []
  remove k ((j, w) ∷ m) = if j == k then remove k m else (j, w) ∷ remove k m

  -- m[k], with the zero value of the element type
  unfoldable pub get_or : String → V → Dict V → V
  get_or k z [] = z
  get_or k z ((j, v) ∷ m) = if j == k then v else get_or k z m

  pub get-put :
      (k j : String) (v : V) (m : Dict V) → get j (put k v m) ≡ (if k == j then some v else get j m)
  unfolding get put
  get-put k j v [] = refl
  get-put k j v ((i, w) ∷ m) = ground (arith, eq_iff k j, eq_iff i k, eq_iff i j, get-put k j v m)

  pub get-remove :
      (k j : String) (m : Dict V) → get j (remove k m) ≡ (if k == j then none else get j m)
  unfolding get remove
  get-remove k j [] = ground arith
  get-remove k j ((i, w) ∷ m) = ground (arith, eq_iff k j, eq_iff i k, eq_iff i j, get-remove k j m)

  pub get_or-put :
      (k j : String) (v z : V) (m : Dict V)
      → get_or j z (put k v m) ≡ (if k == j then v else get_or j z m)
  unfolding get_or put
  get_or-put k j v z [] = refl
  get_or-put k j v z ((i, w) ∷ m) =
      ground (arith, eq_iff k j, eq_iff i k, eq_iff i j, get_or-put k j v z m)

  pub get_or-remove :
      (k j : String) (z : V) (m : Dict V)
      → get_or j z (remove k m) ≡ (if k == j then z else get_or j z m)
  unfolding get_or remove
  get_or-remove k j z [] = ground arith
  get_or-remove k j z ((i, w) ∷ m) =
      ground (arith, eq_iff k j, eq_iff i k, eq_iff i j, get_or-remove k j z m)

pub ruleset dict_laws = (get-put, get-remove, get_or-put, get_or-remove)
