-- ===== src/Messages/Timer.antt =====
-- internal/client/service/message.go: the destroy loop with its ticker. Between two passes the other
-- transactions run.
pub mod Idle
use chat_libp2p.Common.{
  ℕ, ◌+◌, ◌-◌, ◌*◌, ◌^◌, min, Bool, true, false, List, [], ◌∷◌, Bytes, be_value, take, drop, leb,
  if◌then◌else◌,
}
use chat_libp2p.Database.{Bolt, Result, ok, err, key_destroy_msg}
use chat_libp2p.Messages.{dialogue, pending, has_bucket, is_past, delete_in, destroy_pass}

-- Ten seconds.
abbrev pub first_reset : ℕ
first_reset = 10 * 1000000000

-- time.Since of the signed word of a key that is past, which stops at the longest duration.
unfoldable pub since : ℕ → ℕ → ℕ
since now timestamp =
    if leb (2 ^ 63) timestamp
    then min (now + (2 ^ 64 - timestamp)) (2 ^ 63 - 1)
    else now - timestamp

module _ (d : Bolt) where
  -- What the ticker is set to after a pass over the entries.
  unfoldable pub reset_after : ℕ → List (Bytes × Bytes) → d.Tx → ℕ
  unfolding since is_past delete_in
  reset_after now [] t = first_reset
  reset_after now ((k, v) ∷ rest) t =
      let others = reset_after now rest in
      if is_past d now (be_value 0 (take 8 k))
      then since now (be_value 0 (take 8 k))
      else elim (delete_in d (dialogue (drop 8 v)) (take 8 v) t) [
        | err e ↦ first_reset
        | ok t1 ↦ elim (delete_in d (pending (drop 8 v)) (take 8 v) t1) [
          | err e ↦ first_reset
          | ok t2 ↦ others t2
        ]
      ]

  unfoldable pub reset_of : ℕ → d.Tx → ℕ
  unfolding reset_after has_bucket
  reset_of now t =
      if has_bucket d key_destroy_msg t
      then reset_after now (d.cursor t key_destroy_msg) t
      else first_reset

  -- What the select after a pass finds: the ticker or destoryUpdated, at a time, after the transactions
  -- that have run since the pass; or the end of the context.
  pub data Wake : Type 0 where
    woken : ℕ → (d.Tx → d.Tx) → Wake
    over : Wake

  -- destory, from a pass on: what its ticker was set to, and the database.
  unfoldable pub destroy_loop : ℕ → List Wake → d.Tx → List ℕ × d.Tx
  unfolding reset_of destroy_pass
  destroy_loop now [] t = (reset_of now t ∷ [], (destroy_pass d now t).1)
  destroy_loop now (woken next others ∷ rest) t =
      let (resets, u) = destroy_loop next rest (others (destroy_pass d now t).1) in
      (reset_of now t ∷ resets, u)
  destroy_loop now (over ∷ rest) t = (reset_of now t ∷ [], (destroy_pass d now t).1)
