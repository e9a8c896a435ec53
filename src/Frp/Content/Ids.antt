-- ===== src/Frp/Content/Ids.antt =====
-- The keys under which pkg/adapter/frp/webhook.go tracks connections.
use cloudtap.Prelude.{ℕ, ◌≡◌, false, ◌||◌, [], ◌∷◌, arith, nat_eq, Bool}
use cloudtap.Text.{Str}
use cloudtap.Frp.Content.{connection_key}

-- a byte among the bytes of a text
unfoldable pub has_byte : ℕ → Str → Bool
has_byte b [] = false
has_byte b (c ∷ s) = nat_eq c b || has_byte b s

-- Two proxies share a key only if they have one name and one run id, as long as run ids hold no
-- slash.
pub connection_key-injective :
    (r s p q : Str)
    → has_byte b'/' r ≡ false
    → has_byte b'/' s ≡ false
    → connection_key r p ≡ connection_key s q
    → (r ≡ s) × (p ≡ q)
unfolding connection_key has_byte
connection_key-injective [] [] p q h k e = ground arith
connection_key-injective (c ∷ r) (d ∷ s) p q h k e =
    ground (arith, connection_key-injective r s p q)
connection_key-injective [] (d ∷ s) p q h k e = ground arith
connection_key-injective (c ∷ r) [] p q h k e = ground arith
