-- ===== src/Policy/Protocol.antt =====
-- The protocol test of Match.Validate in pkg/policy/types.go.
use cloudtap.Prelude.{
  ℕ, ◌+◌, ◌≡◌, refl, Bool, true, false, ◌&&◌, ◌||◌, Option, none, some, List, [], ◌∷◌, map, leb,
  nat_eq, if◌then◌else◌, arith,
}
use cloudtap.Text.{Str, lit, eq_iff, mem}

-- The lower case of an ASCII letter.
unfoldable pub to_lower : ℕ → ℕ
to_lower c = if leb b'A' c && leb c b'Z' then c + 32 else c

-- `s` without the bytes `p` at its front
strip : Str → Str → Option Str
strip [] s = some s
strip (p ∷ ps) [] = none
strip (p ∷ ps) (c ∷ s) = let rest = strip ps s in if nat_eq c p then rest else none

-- `s` without one character that folds to the lower-case letter `d`. Beside the letter itself,
-- simple folding takes U+017F (bytes 0xC5 0xBF) to `s` and U+212A (bytes 0xE2 0x84 0xAA) to `k`.
fold_one : ℕ → Str → Option Str
unfolding to_lower strip
fold_one d [] = none
fold_one d (c ∷ s) =
    if nat_eq (to_lower c) d
    then some s
    else if nat_eq d b's'
    then strip (0xC5 ∷ 0xBF ∷ []) (c ∷ s)
    else if nat_eq d b'k'
    then strip (0xE2 ∷ 0x84 ∷ 0xAA ∷ []) (c ∷ s)
    else none

-- strings.EqualFold(s, t) for a `t` of lower-case ASCII
unfoldable pub equal_fold : Str → Str → Bool
unfolding fold_one
equal_fold [] [] = true
equal_fold (c ∷ s) [] = false
equal_fold s (d ∷ t) = elim (fold_one d s) [ none ↦ false | some rest ↦ equal_fold rest t ]

-- the `valid` slice
abbrev pub protocols : List Str
protocols =
    lit "tcp" ∷ lit "udp" ∷ lit "http" ∷ lit "https" ∷ lit "stcp" ∷ lit "sudp" ∷ lit "xtcp" ∷ []

found_in : Str → List Str → Bool
unfolding equal_fold
found_in s [] = false
found_in s (v ∷ vs) = equal_fold s v || found_in s vs

-- the loop over `valid`
unfoldable pub known_protocol : Str → Bool
unfolding found_in
known_protocol s = found_in s protocols

equal_fold-map-to_lower : (s : Str) → equal_fold s (map to_lower s) ≡ true
unfolding equal_fold
equal_fold-map-to_lower [] = refl
equal_fold-map-to_lower (c ∷ s) = ground (arith, equal_fold-map-to_lower s)

found_in-lower : (s : Str) (vs : List Str) → mem (map to_lower s) vs ≡ true → found_in s vs ≡ true
unfolding found_in mem
found_in-lower s [] h = ground arith
found_in-lower s (v ∷ vs) h =
    ground (arith, found_in-lower s vs, eq_iff v (map to_lower s), equal_fold-map-to_lower s)

-- A protocol of the list is accepted in any mixture of upper and lower case.
known_protocol_any_case :
    (s : Str) → mem (map to_lower s) protocols ≡ true → known_protocol s ≡ true
known_protocol_any_case s h = unfold known_protocol in found_in-lower s protocols h
