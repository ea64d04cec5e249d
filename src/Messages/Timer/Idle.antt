-- ===== src/Messages/Timer/Idle.antt =====
-- What the destroy loop does once the oldest entry is past: internal/client/service/message.go.
use chat_libp2p.Common.{ℕ, ◌≡◌, ◌∙◌, ap, true, List, [], ◌∷◌, Bytes, be_value, take, All}
use chat_libp2p.Database.{Bolt, key_destroy_msg}
use chat_libp2p.Messages.{is_past, destroy_pass}
use chat_libp2p.Messages.Expiry.{destroy_pass_expired}
use chat_libp2p.Messages.Timer.{Wake, woken, over, destroy_loop}

module _ (d : Bolt) where
  -- The entry of a key is the first one that is scheduled.
  abbrev pub IsFirst : Bytes → d.Tx → Type 0
  IsFirst k t =
      (v : Bytes) × (rest : List (Bytes × Bytes)) × (d.cursor t key_destroy_msg ≡ (k, v) ∷ rest)

  -- A wake-up after the time of a key; the transactions before it leave the entry the first one.
  abbrev pub IsLater : Bytes → Wake d → Type 0
  IsLater k (woken now others) =
      (is_past d now (be_value 0 (take 8 k)) ≡ true)
      × ((t : d.Tx) → IsFirst k t → IsFirst k (others t))
  IsLater k over = Unit {0}

  -- The database after the other transactions alone.
  abbrev pub without_loop : List (Wake d) → d.Tx → d.Tx
  without_loop [] t = t
  without_loop (woken now others ∷ rest) t = without_loop rest (others t)
  without_loop (over ∷ rest) t = t

  pass_idle :
      (now : ℕ) (k : Bytes) (t : d.Tx)
      → is_past d now (be_value 0 (take 8 k)) ≡ true
      → IsFirst k t
      → (destroy_pass d now t).1 ≡ t
  pass_idle now k t past (v, rest, first) =
      ap (λ r. r.1) (destroy_pass_expired d t now k v rest first past)

  -- Once the time of the first scheduled entry has passed, the destroy loop destroys nothing any more, as
  -- long as that entry stays the first one: the database is what the other transactions alone make of it.
  pub destroy_loop_idle :
      (wakes : List (Wake d)) (now : ℕ) (k : Bytes) (t : d.Tx)
      → is_past d now (be_value 0 (take 8 k)) ≡ true
      → IsFirst k t
      → All (IsLater k) wakes
      → (destroy_loop d now wakes t).1 ≡ without_loop wakes t
  unfolding destroy_loop
  destroy_loop_idle [] now k t past first h = pass_idle now k t past first
  destroy_loop_idle (woken next others ∷ rest) now k t past first ((late, keeps), h) =
      ap (λ u. (destroy_loop d next rest (others u)).1) (pass_idle now k t past first)
      ∙ destroy_loop_idle rest next k (others t) late (keeps t first) h
  destroy_loop_idle (over ∷ rest) now k t past first h = pass_idle now k t past first
