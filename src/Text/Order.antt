-- ===== src/Text/Order.antt =====
-- Go's order on strings (bytewise, a prefix first), and sort.Strings.
use cloudtap.Prelude.{
  ◌≡◌, refl, Bool, true, false, ◌||◌, List, [], ◌∷◌, arith, ltb, nat_eq, if◌then◌else◌, All,
  Bool-cases, inl, inr,
}
use cloudtap.Text.{Str, ◌==◌, mem, Distinct}

-- a < b
unfoldable pub less : Str → Str → Bool
less [] [] = false
less [] (y ∷ ys) = true
less (x ∷ xs) [] = false
less (x ∷ xs) (y ∷ ys) = if ltb x y then true else if nat_eq x y then less xs ys else false

less_trans : (a b c : Str) → less a b ≡ true → less b c ≡ true → less a c ≡ true
unfolding less
less_trans [] (y ∷ b) (z ∷ c) h k = refl
less_trans (x ∷ a) (y ∷ b) (z ∷ c) h k = ground (arith, less_trans a b c)
less_trans [] [] c h k = ground arith
less_trans [] (y ∷ b) [] h k = ground arith
less_trans (x ∷ a) [] c h k = ground arith
less_trans (x ∷ a) (y ∷ b) [] h k = ground arith

-- One of two different texts is the smaller.
less_total : (a b : Str) → less a b ≡ false → a == b ≡ false → less b a ≡ true
unfolding less ◌==◌
less_total [] [] h k = ground arith
less_total [] (y ∷ b) h k = ground arith
less_total (x ∷ a) [] h k = refl
less_total (x ∷ a) (y ∷ b) h k = ground (arith, less_total a b)

insert : Str → List Str → List Str
insert x [] = x ∷ []
insert x (y ∷ ys) = if less y x then y ∷ insert x ys else x ∷ y ∷ ys

-- sort.Strings: increasing order
unfoldable pub sort_strings : List Str → List Str
unfolding insert
sort_strings [] = []
sort_strings (x ∷ xs) = insert x (sort_strings xs)

-- Each text is smaller than all that follow it.
abbrev pub Ascending : List Str → Type 0
Ascending [] = Unit
Ascending (x ∷ xs) = All (λ y. less x y ≡ true) xs × Ascending xs

mem-insert : (k x : Str) (xs : List Str) → mem k (insert x xs) ≡ (x == k || mem k xs)
unfolding insert mem
mem-insert k x [] = refl
mem-insert k x (y ∷ ys) = ground (arith, mem-insert k x ys)

-- Sorting keeps the texts that occur.
pub mem-sort_strings : (k : Str) (xs : List Str) → mem k (sort_strings xs) ≡ mem k xs
unfolding sort_strings mem
mem-sort_strings k [] = refl
mem-sort_strings k (x ∷ xs) =
    ground (arith, mem-insert k x (sort_strings xs), mem-sort_strings k xs)

All-less :
    (a b : Str) (xs : List Str)
    → less a b ≡ true
    → All (λ y. less b y ≡ true) xs
    → All (λ y. less a y ≡ true) xs
All-less a b [] h k = tt
All-less a b (x ∷ xs) h k = (less_trans a b x h k.0, All-less a b xs h k.1)

All-insert :
    (a x : Str) (xs : List Str)
    → less a x ≡ true
    → All (λ y. less a y ≡ true) xs
    → All (λ y. less a y ≡ true) (insert x xs)
unfolding insert
All-insert a x [] h k = (h, tt)
All-insert a x (y ∷ ys) h k = ground (arith, All-insert a x ys)

insert-Ascending :
    (x : Str) (xs : List Str) → Ascending xs → mem x xs ≡ false → Ascending (insert x xs)
unfolding insert mem
insert-Ascending x [] h k = (tt, tt)
insert-Ascending x (y ∷ ys) h k = elim (Bool-cases (less y x)) [
  | inl lt ↦ ground (arith, All-insert y x ys, insert-Ascending x ys)
  | inr ge ↦ ground (arith, All-less x y ys, less_total y x)
]

-- Distinct texts come out strictly increasing.
pub sort_strings-Ascending : (xs : List Str) → Distinct xs → Ascending (sort_strings xs)
unfolding sort_strings
sort_strings-Ascending [] h = tt
sort_strings-Ascending (x ∷ xs) h =
    insert-Ascending x (sort_strings xs) (sort_strings-Ascending xs h.1)
      (rw (mem-sort_strings x xs) h.0)
