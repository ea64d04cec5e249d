-- ===== src/Mobile/Deletion.antt =====
-- Session.Fetch followed by Session.Delete of what it returned.
use chat_libp2p.Common.{
  ℕ, suc, ◌<◌, ◌^◌, ◌≡◌, ◌∙◌, refl, sym, ap, subst, Option, some, List, [], ◌∷◌, Bytes, length, All,
  put_be, false,
}
use chat_libp2p.Database.{Bolt, BoltLaws, ok, err, not_found, same_entry, ends_open}
use chat_libp2p.Peers.{Codec, CodecLaws}
use chat_libp2p.Messages.{Message, dialogue, del_messages}
use chat_libp2p.Messages.Entries.{get_message}
use chat_libp2p.Messages.Deletion.{del_messages_lem}
use chat_libp2p.Mobile.{
  Node, View, parse_uint, link, walk, view, views, parse_ids, found_messages, session_fetch,
  session_delete,
}
use chat_libp2p.Mobile.Links.{walk-link}
use chat_libp2p.Mobile.Decimals.{parse_uint-format_uint}

-- A number that fits into 64 bits.
abbrev pub HasId64 : Message → Type 0
HasId64 m = m.id < 2 ^ 64

abbrev pub ids : List Message → List ℕ
ids [] = []
ids (m ∷ ms) = m.id ∷ ids ms

parsed :
    (v : View) (vs : List View) (n : ℕ) (ns : List ℕ)
    → parse_uint v.id ≡ some n
    → parse_ids vs ≡ some ns
    → parse_ids (v ∷ vs) ≡ some (n ∷ ns)
unfolding parse_ids
parsed v vs n ns e es = rw (e, es, parse_ids) refl

parse_ids-views :
    (peer : Bytes) (ms : List Message) → All HasId64 ms → parse_ids (views peer ms) ≡ some (ids ms)
unfolding parse_ids view
parse_ids-views peer [] h = refl
parse_ids-views peer (m ∷ ms) (h, hs) =
    parsed (view peer m) (views peer ms) m.id (ids ms) (parse_uint-format_uint m.id h)
      (parse_ids-views peer ms hs)

length-views : (peer : Bytes) (ms : List Message) → length (views peer ms) ≡ length ms
length-views peer [] = refl
length-views peer (m ∷ ms) = ap suc (length-views peer ms)

module _ (d : Bolt) (c : Codec Message) where
  delete_walked :
      (peer : Bytes) (fuel : ℕ) (heap : List (Node View)) (first : Option ℕ) (vs : List View)
      (ns : List ℕ) (u : d.Tx)
      → walk fuel heap first ≡ vs
      → parse_ids vs ≡ some ns
      → session_delete d c peer fuel heap first u ≡ del_messages d peer ns u
  unfolding session_delete
  delete_walked peer fuel heap first vs ns u walked parsed' =
      rw (walked, parsed', session_delete) refl

  -- Deleting the messages that Fetch returned, from the first object on, is DelMessages with the numbers
  -- of just the messages of the dialogue that Fetch had read, in their order, if these numbers fit into
  -- 64 bits; as many steps as there are messages are enough to walk them.
  pub session_delete-session_fetch :
      (peer name : Bytes) (offset limit : ℕ) (t u : d.Tx)
      → All HasId64 (found_messages d c peer t)
      → let r = session_fetch d c peer name offset limit t in
        session_delete d c peer (length (found_messages d c peer t)) r.0 r.1 u
        ≡ del_messages d peer (ids (found_messages d c peer t)) u
  unfolding session_fetch
  session_delete-session_fetch peer name offset limit t u h =
      let ms = found_messages d c peer t in
      let walked : walk (length ms) (link (views name ms)).0 (link (views name ms)).1
          ≡ views name ms =
        subst (λ n. walk n (link (views name ms)).0 (link (views name ms)).1 ≡ views name ms)
          (length-views name ms) (walk-link (views name ms)) in
      delete_walked peer (length ms) (link (views name ms)).0 (link (views name ms)).1
        (views name ms) (ids ms) u walked (parse_ids-views name ms h)

module _ (d : Bolt) (w : BoltLaws d) (c : Codec Message) (l : CodecLaws c) where
  -- When the messages that Fetch returned are deleted, from the first object on and without an error,
  -- GetMessage finds none of them any more, and every other entry of the database is as it was, if their
  -- numbers fit into 64 bits; as many steps as there are messages are enough to walk the objects.
  pub fetched_deleted :
      (peer name : Bytes) (offset limit : ℕ) (t u v : d.Tx)
      → ends_open (dialogue peer) ≡ false
      → All HasId64 (found_messages d c peer t)
      → session_delete d c peer
          (length (found_messages d c peer t))
          (session_fetch d c peer name offset limit t).0
          (session_fetch d c peer name offset limit t).1
          u
        ≡ (ok tt, v)
      → All (λ id. get_message d c peer id v ≡ err not_found) (ids (found_messages d c peer t))
        × ((b k : Bytes)
            → All
                (λ id. same_entry (dialogue peer) (put_be 8 id) b k ≡ false)
                (ids (found_messages d c peer t))
            → d.get v b k ≡ d.get u b k)
  fetched_deleted peer name offset limit t u v closed h e =
      del_messages_lem d w c l peer (ids (found_messages d c peer t)) u v closed
        (sym (session_delete-session_fetch d c peer name offset limit t u h) ∙ e)
