-- ===== src/GoMap.antt =====
-- Go's `map[string]V` as an association list.
pub mod Laws
use cloudtap.Prelude.{Option, none, some, List, [], ◌∷◌, if◌then◌else◌}
use cloudtap.Text.{Str, ◌==◌}

abbrev pub GoMap {ℓ} : Type ℓ → Type ℓ
GoMap V = List (Str × V)

module _ {ℓ} {V : Type ℓ} where
  -- v, ok := m[k]
  unfoldable pub get : Str → GoMap V → Option V
  get k [] = none
  get k ((j, v) ∷ m) = if j == k then some v else get k m

  -- m[k] = v
  unfoldable pub put : Str → V → GoMap V → GoMap V
  put k v [] = (k, v) ∷ []
  put k v ((j, w) ∷ m) = if j == k then (j, v) ∷ m else (j, w) ∷ put k v m

  -- delete(m, k)
  unfoldable pub delete : Str → GoMap V → GoMap V
  delete k [] = []
  delete k ((j, w) ∷ m) = let rest = delete k m in if j == k then rest else (j, w) ∷ rest

  -- the keys, in the order of some iteration
  abbrev pub keys : GoMap V → List Str
  keys [] = []
  keys ((k, v) ∷ m) = k ∷ keys m
