-- ===== src/Client/Runs/Closings.antt =====
-- What Run of internal/client/client.go leaves open, and whether its callers may go on.
use chat_libp2p.Common.{◌≡◌, Bool-cases, inl, inr, refl, Bool, false, List, [], ◌∷◌, ◌==◌}
use chat_libp2p.Deferred.{
  bolt, node, table, context, routed, ticker, announced, Call, private_key, evm_address,
  bootstrap_list, image_dir, database_dir, new_bolt, resource_manager, new_node, new_table,
  bootstrap_table, save_self, disconnected, cancelled, halted, Going, nothing, acquire, note,
}
use chat_libp2p.Deferred.Balance.{
  IsOpen, IsClosed, IsOpen-acquire, IsOpen-note, IsOpen-made, IsClosed-finish, IsClosed-attempt,
}
use chat_libp2p.Deferred.Announced.{notes_of}
use chat_libp2p.Deferred.Unowned.{unowned}
use chat_libp2p.Client.Runs.Manager.{fails_at_node, Leaves-client_run}
use chat_libp2p.Client.Runs.{
  Turn, tick, done, halt, watch, serve, join_network, open_store, client_run,
}

IsClosed-watch : (turns : List Turn) (s : Going) → IsOpen s → IsClosed (watch turns s)
unfolding watch
IsClosed-watch [] s h = tt
IsClosed-watch (tick n ∷ rest) s h = elim (Bool-cases (n == 0)) [
  | inl alone ↦ rw alone (IsClosed-finish disconnected s h)
  | inr linked ↦ rw linked (IsClosed-watch rest s h)
]
IsClosed-watch (done ∷ rest) s h = IsClosed-finish cancelled s h
IsClosed-watch (halt ∷ rest) s h = IsClosed-finish halted s h

module _ (ok : Call → Bool) (turns : List Turn) where
  IsClosed-serve : (s : Going) → IsOpen s → IsClosed (serve ok turns s)
  unfolding serve
  IsClosed-serve s h =
      IsClosed-attempt (ok save_self) save_self _ s
        (λ u k. IsClosed-watch turns _ (IsOpen-acquire ticker (note announced u) (IsOpen-note u k)))
        h

  IsClosed-join_network : (s : Going) → IsOpen s → IsClosed (join_network ok turns s)
  unfolding join_network
  IsClosed-join_network s h =
      IsClosed-attempt (ok new_node) new_node _ s
        (λ u k.
          IsClosed-attempt (ok new_table) new_table _ _
            (λ v l.
              IsClosed-attempt (ok bootstrap_table) bootstrap_table _ _
                (λ w m.
                  IsClosed-serve _
                    (IsOpen-acquire routed (acquire context w) (IsOpen-acquire context w m)))
                (IsOpen-acquire table v l))
            (IsOpen-acquire node u k))
        h

  IsClosed-open_store : (s : Going) → IsOpen s → IsClosed (open_store ok turns s)
  unfolding open_store
  IsClosed-open_store s h =
      IsClosed-attempt (ok new_bolt) new_bolt _ s
        (λ u k.
          IsClosed-attempt (ok resource_manager) resource_manager _ _
            (λ v l. IsClosed-join_network _ (IsOpen-made v l)) (IsOpen-acquire bolt u k))
        h

  IsClosed-client_run : IsClosed (client_run ok turns)
  unfolding client_run
  IsClosed-client_run =
      IsClosed-attempt (ok private_key) private_key _ nothing
        (λ s h.
          IsClosed-attempt (ok evm_address) evm_address _ s
            (λ s h.
              IsClosed-attempt (ok bootstrap_list) bootstrap_list _ s
                (λ s h.
                  IsClosed-attempt (ok image_dir) image_dir _ s
                    (λ s h.
                      IsClosed-attempt (ok database_dir) database_dir _ s IsClosed-open_store h)
                    h)
                h)
            h)
        refl

  -- Run, whatever its calls return and whatever its loop finds, either waits in its loop, or has called each
  -- Close that it deferred just once, for what was opened last first. Of the resource manager no Close is
  -- deferred: Run leaves one that no node took over just when all calls before libp2p.New go well and
  -- that one returns an error.
  pub client_run-IsClosed :
      IsClosed (client_run ok turns)
      × (unowned (notes_of (client_run ok turns)) false ≡ fails_at_node ok)
  client_run-IsClosed = (IsClosed-client_run, Leaves-client_run ok turns)
