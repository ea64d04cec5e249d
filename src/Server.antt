-- ===== src/Server.antt =====
-- internal/server/server.go: Run of the relay server. What its calls return is an argument; the strings of
-- addresses, and what libp2p makes of them, are parameters.
pub mod Closings
pub mod Connected
pub mod Announcing
use chat_libp2p.Common.{
  ℕ, Bool, true, false, Option, none, some, List, [], ◌∷◌, ◌++◌, map, Bytes, bytes_beq, ltb, length,
  if◌then◌else◌,
}
use chat_libp2p.Deferred.{
  Resource, node, table, Call, private_key, resource_manager, new_node, new_table, bootstrap_table,
  Outcome, halted, Run, waiting, Going, nothing, acquire, note, manager_made, finish, attempt,
}

-- The end of Run: it waits until Close.
unfoldable pub await_halt : Bool → Going → Run
unfolding finish
await_halt false s = waiting s.notes
await_halt true s = finish halted s

-- Run
unfoldable pub server_run : (Call → Bool) → Bool → Run
unfolding attempt acquire note await_halt
server_run ok closed =
    attempt (ok private_key) private_key
      (attempt (ok resource_manager) resource_manager (λ s.
        attempt (ok new_node) new_node
          (λ u.
            attempt (ok new_table) new_table
              (λ v.
                attempt (ok bootstrap_table) bootstrap_table (await_halt closed) (acquire table v))
              (acquire node u))
          (note manager_made s)))
      nothing

module _ {A : Type 0} (parse : Bytes → Option A) (connect : A → Bool) where
  unfoldable pub connect_next : Bool → A → List A × Bool → List A × Bool
  connect_next true a (rest, fine) = (a ∷ rest, fine)
  connect_next false a others = ([], false)

  -- A round of the loop of connectBootstrap, with what the rounds after it would give.
  unfoldable pub connect_parsed : Option A → List A × Bool → List A × Bool
  unfolding connect_next
  connect_parsed none others = ([], false)
  connect_parsed (some a) others = connect_next (connect a) a others

  -- connectBootstrap: the peers that are connected, in their order, and whether it returns no error.
  unfoldable pub connect_bootstrap : List Bytes → List A × Bool
  unfolding connect_parsed
  connect_bootstrap [] = ([], true)
  connect_bootstrap (addr ∷ addrs) = connect_parsed (parse addr) (connect_bootstrap addrs)

module _ {A : Type 0} (ip4 : A → Option Bytes) (text : A → Bytes) (parse : Bytes → Option A)
    (replace_all : Bytes → Bytes → Bytes → Bytes) where
  -- A key is put into a set.
  unfoldable pub add_key : Bytes → List Bytes → List Bytes
  add_key k [] = k ∷ []
  add_key k (j ∷ js) = let rest = add_key k js in if bytes_beq k j then j ∷ js else j ∷ rest

  unfoldable pub add_text : Bytes → A → Option Bytes → List Bytes → List Bytes
  unfolding add_key
  add_text public_ip a none keys = keys
  add_text public_ip a (some ip) keys = add_key (replace_all (text a) ip public_ip) keys

  -- The first loop of AddrsFactory: the set of announced strings.
  unfoldable pub announced_texts : Bytes → List A → List Bytes → List Bytes
  unfolding add_text
  announced_texts public_ip [] keys = keys
  announced_texts public_ip (a ∷ rest) keys =
      announced_texts public_ip rest (add_text public_ip a (ip4 a) keys)

  -- The second loop.
  unfoldable pub add_parsed : Option A → List A → List A
  add_parsed none rest = rest
  add_parsed (some a) rest = a ∷ rest

  unfoldable pub parse_texts : List Bytes → List A
  unfolding add_parsed
  parse_texts [] = []
  parse_texts (t ∷ ts) = add_parsed (parse t) (parse_texts ts)

  -- AddrsFactory; `order` is the order in which the runtime goes through the set.
  unfoldable pub announced_addrs : (List Bytes → List Bytes) → Bytes → List A → List A
  unfolding announced_texts parse_texts
  announced_addrs order public_ip addrs = parse_texts (order (announced_texts public_ip addrs []))
