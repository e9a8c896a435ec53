-- ===== src/GoMap/Laws.antt =====
-- What a client may know of a map: its lookups, and the number of its keys.
use cloudtap.Prelude.{
  ◌≡◌, refl, ◌+◌, false, none, some, [], ◌∷◌, arith, if◌then◌else◌, is_some, length,
}
use cloudtap.Text.{Str, ◌==◌, eq_iff, mem, Distinct}
use cloudtap.GoMap.{GoMap, get, put, delete, keys}

module _ {ℓ} {V : Type ℓ} where
  pub get-put :
      (j k : Str) (v : V) (m : GoMap V) → get j (put k v m) ≡ (if k == j then some v else get j m)
  unfolding get put
  get-put j k v [] = refl
  get-put j k v ((i, w) ∷ m) = ground (arith, eq_iff k j, eq_iff i k, eq_iff i j, get-put j k v m)

  pub get-delete :
      (j k : Str) (m : GoMap V) → get j (delete k m) ≡ (if k == j then none else get j m)
  unfolding get delete
  get-delete j k [] = ground arith
  get-delete j k ((i, w) ∷ m) = ground (arith, eq_iff k j, eq_iff i k, eq_iff i j, get-delete j k m)

  -- A key is listed exactly when a lookup finds it.
  pub mem-keys : (k : Str) (m : GoMap V) → mem k (keys m) ≡ is_some (get k m)
  unfolding mem get
  mem-keys k [] = refl
  mem-keys k ((j, v) ∷ m) = ground (arith, mem-keys k m)

  mem-keys-put :
      (j k : Str) (v : V) (m : GoMap V)
      → mem j (keys m) ≡ false
      → k == j ≡ false
      → mem j (keys (put k v m)) ≡ false
  mem-keys-put j k v m h n = ground (arith, mem-keys j m, mem-keys j (put k v m), get-put j k v m)

  mem-keys-delete :
      (j k : Str) (m : GoMap V) → mem j (keys m) ≡ false → mem j (keys (delete k m)) ≡ false
  mem-keys-delete j k m h = ground (arith, mem-keys j m, mem-keys j (delete k m), get-delete j k m)

  pub put-Distinct :
      (k : Str) (v : V) (m : GoMap V) → Distinct (keys m) → Distinct (keys (put k v m))
  unfolding put mem
  put-Distinct k v [] h = (refl, tt)
  put-Distinct k v ((j, w) ∷ m) h =
      ground (arith, eq_iff j k, eq_iff k j, put-Distinct k v m, mem-keys-put j k v m)

  pub delete-Distinct : (k : Str) (m : GoMap V) → Distinct (keys m) → Distinct (keys (delete k m))
  unfolding delete
  delete-Distinct k [] h = tt
  delete-Distinct k ((j, w) ∷ m) h = ground (arith, delete-Distinct k m, mem-keys-delete j k m)

  pub length-put :
      (k : Str) (v : V) (m : GoMap V)
      → length (put k v m) ≡ (if is_some (get k m) then length m else length m + 1)
  unfolding put get
  length-put k v [] = omega arith
  length-put k v ((j, w) ∷ m) = ground (arith, length-put k v m)

  pub delete_absent : (k : Str) (m : GoMap V) → get k m ≡ none → delete k m ≡ m
  unfolding delete get
  delete_absent k [] h = refl
  delete_absent k ((j, w) ∷ m) h = ground (arith, delete_absent k m)

  pub length-delete :
      (k : Str) (m : GoMap V)
      → Distinct (keys m)
      → length m ≡ (if is_some (get k m) then length (delete k m) + 1 else length (delete k m))
  unfolding delete get
  length-delete k [] h = refl
  length-delete k ((j, w) ∷ m) h =
      ground (arith, length-delete k m, delete_absent k m, mem-keys j m, eq_iff j k)
