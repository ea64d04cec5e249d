-- ===== src/Client/Runs.antt =====
-- Run of internal/client/client.go: what it opens and closes, and when OK is closed. What its calls return
-- and what its select finds are arguments.
pub mod Manager
pub mod Closings
pub mod Ready
use chat_libp2p.Common.{
  ℕ, suc, ◌+◌, ◌≡◌, ◌∙◌, refl, sym, ap, subst, arith, Bool, true, false, List, [], ◌∷◌, ◌++◌,
  Option, none, some, ◌&&◌, ◌==◌, if◌then◌else◌,
}
use chat_libp2p.Deferred.{
  Resource, bolt, node, table, context, routed, ticker, Note, opened, closed, announced,
  manager_made, Call, private_key, evm_address, bootstrap_list, image_dir, database_dir, new_bolt,
  resource_manager, new_node, new_table, bootstrap_table, save_self, Outcome, failed, disconnected,
  cancelled, halted, Run, waiting, returned, Going, nothing, acquire, note, closings, finish,
  attempt,
}

-- What the select of the loop finds: a tick with the number of connected peers, the context's end, or halt.
pub data Turn : Type 0 where
  tick : ℕ → Turn
  done : Turn
  halt : Turn

-- The loop at the end of Run.
unfoldable pub watch : List Turn → Going → Run
unfolding finish
watch [] s = waiting s.notes
watch (tick n ∷ rest) s = let more = watch rest s in if n == 0 then finish disconnected s else more
watch (done ∷ rest) s = finish cancelled s
watch (halt ∷ rest) s = finish halted s

module _ (ok : Call → Bool) (turns : List Turn) where
  -- The services, from Save of the own record on.
  unfoldable pub serve : Going → Run
  unfolding attempt watch acquire note
  serve s =
      attempt (ok save_self) save_self (λ u. watch turns (acquire ticker (note announced u))) s

  -- From the node on.
  unfoldable pub join_network : Going → Run
  unfolding attempt acquire serve
  join_network s =
      attempt (ok new_node) new_node
        (λ u.
          attempt (ok new_table) new_table
            (λ v.
              attempt (ok bootstrap_table) bootstrap_table
                (λ w. serve (acquire routed (acquire context w))) (acquire table v))
            (acquire node u))
        s

  -- From the database on.
  unfoldable pub open_store : Going → Run
  unfolding attempt acquire note join_network
  open_store s =
      attempt (ok new_bolt) new_bolt
        (λ u.
          attempt (ok resource_manager) resource_manager (λ v. join_network (note manager_made v))
            (acquire bolt u))
        s

  -- Run
  unfoldable pub client_run : Run
  unfolding attempt open_store
  client_run =
      attempt (ok private_key) private_key
        (attempt (ok evm_address) evm_address (
          attempt (ok bootstrap_list) bootstrap_list
            (attempt (ok image_dir) image_dir (attempt (ok database_dir) database_dir open_store))))
        nothing
