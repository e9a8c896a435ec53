-- ===== src/Text.antt =====
-- Go's `string` is a sequence of bytes; so is `Str`. The operators and the functions of package
-- `strings` that the program uses, byte by byte.
pub mod Order
use Prim.Native.Char.{code}
use cloudtap.Prelude.{
  ℕ, String, ◌≡◌, refl, ◌↔◌, Bool, true, false, ◌&&◌, ◌||◌, List, [], ◌∷◌, ◌++◌, arith, nat_eq,
  nat_eq_iff,
}

abbrev pub Str : Type 0
Str = List ℕ

-- A literal of the source, which is ASCII throughout.
abbrev pub lit : String → Str
lit String.[] = []
lit (String.◌∷◌ c s) = code c ∷ lit s

-- a == b
infix 50 ◌==◌
unfoldable pub ◌==◌ : Str → Str → Bool
[] == [] = true
(x ∷ xs) == (y ∷ ys) = nat_eq x y && xs == ys
_ == _ = false

-- `==` decides equality of texts.
pub eq_iff : (a b : Str) → (a == b ≡ true) ↔ (a ≡ b)
unfolding ◌==◌
eq_iff [] [] = ground arith
eq_iff (x ∷ xs) (y ∷ ys) = ground (arith, eq_iff xs ys)
eq_iff [] (y ∷ ys) = ground arith
eq_iff (x ∷ xs) [] = ground arith

pub eq_refl : (a : Str) → (a == a) ≡ true
eq_refl a = (eq_iff a a).1 refl

-- names[key], for a map to bool used as a set
unfoldable pub mem : Str → List Str → Bool
mem k [] = false
mem k (x ∷ xs) = x == k || mem k xs

-- No text occurs twice.
abbrev pub Distinct : List Str → Type 0
Distinct [] = Unit
Distinct (x ∷ xs) = (mem x xs ≡ false) × Distinct xs

-- strings.HasPrefix
unfoldable pub has_prefix : Str → Str → Bool
has_prefix s [] = true
has_prefix [] (p ∷ ps) = false
has_prefix (c ∷ s) (p ∷ ps) = nat_eq c p && has_prefix s ps

-- strings.Contains
unfoldable pub contains : Str → Str → Bool
unfolding has_prefix
contains [] sub = has_prefix [] sub
contains (c ∷ s) sub = has_prefix (c ∷ s) sub || contains s sub

-- strings.Join
unfoldable pub join : List Str → Str → Str
join [] sep = []
join (x ∷ []) sep = x
join (x ∷ y ∷ xs) sep = x ++ (sep ++ join (y ∷ xs) sep)
