-- ===== src/Peers/Order.antt =====
-- The order of the peer list.
use chat_libp2p.Common.{
  ℕ, ◌≡◌, refl, arith, true, false, Option, none, some, Bytes, bytes_lt_asym, bytes_lt_trans,
}
use chat_libp2p.Peers.{Listed, less_last, less_pin, less}

less_last_trans :
    (i j k : Bytes) (a b c : Option ℕ)
    → less_last i j a b ≡ true
    → less_last j k b c ≡ true
    → less_last i k a c ≡ true
unfolding less_last
less_last_trans i j k none none none p q = bytes_lt_trans i j k p q
less_last_trans i j k none none (some c) p q = cc
less_last_trans i j k none (some b) c p q = cc
less_last_trans i j k (some a) none none p q = refl
less_last_trans i j k (some a) none (some c) p q = cc
less_last_trans i j k (some a) (some b) none p q = refl
less_last_trans i j k (some a) (some b) (some c) p q = ground arith

less_last_asym :
    (i j : Bytes) (a b : Option ℕ) → less_last i j a b ≡ true → less_last j i b a ≡ false
unfolding less_last
less_last_asym i j none none p = bytes_lt_asym i j p
less_last_asym i j none (some b) p = cc
less_last_asym i j (some a) none p = refl
less_last_asym i j (some a) (some b) p = ground arith

-- The peer list is sorted by a strict order: no two peers come before one another, and the order is
-- transitive.
pub less_strict :
    (p q r : Listed)
    → (less p q ≡ true → less q p ≡ false) × (less p q ≡ true → less q r ≡ true → less p r ≡ true)
unfolding less less_pin
less_strict p q r = (
  λ h. ground (arith, less_last_asym p.peer.id q.peer.id p.last q.last),
  λ h k. ground (arith, less_last_trans p.peer.id q.peer.id r.peer.id p.last q.last r.last),
)

-- A pinned peer comes before every peer that is not pinned, whatever their messages.
pub less_pinned :
    (p q : Listed) → p.peer.pin ≡ true → q.peer.pin ≡ false → (less p q ≡ true) × (less q p ≡ false)
unfolding less less_pin
less_pinned p q a b = (rw (a, less, b, less_pin), rw (a, b, less, less_pin))
