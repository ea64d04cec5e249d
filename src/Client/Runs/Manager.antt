-- ===== src/Client/Runs/Manager.antt =====
-- When Run of internal/client/client.go leaves a resource manager without an owner.
use chat_libp2p.Common.{
  refl, Bool, true, false, Bool-cases, inl, inr, List, [], ◌∷◌, ◌&&◌, ◌==◌, not,
}
use chat_libp2p.Deferred.{
  bolt, node, table, context, routed, ticker, announced, manager_made, Call, private_key,
  evm_address, bootstrap_list, image_dir, database_dir, new_bolt, resource_manager, new_node,
  new_table, bootstrap_table, save_self, disconnected, cancelled, halted, Going, nothing, acquire,
  note,
}
use chat_libp2p.Deferred.Unowned.{
  HasUnowned, Leaves, unowned-note, unowned-acquire, Leaves-finish, Leaves-attempt, Leaves-later,
  Leaves-new_node,
}
use chat_libp2p.Client.Runs.{
  Turn, tick, done, halt, watch, serve, join_network, open_store, client_run,
}

Leaves-watch : (turns : List Turn) (s : Going) → HasUnowned false s → Leaves false (watch turns s)
unfolding watch
Leaves-watch [] s h = h
Leaves-watch (tick n ∷ rest) s h = elim (Bool-cases (n == 0)) [
  | inl alone ↦ rw alone (Leaves-finish false disconnected s h)
  | inr linked ↦ rw linked (Leaves-watch rest s h)
]
Leaves-watch (done ∷ rest) s h = Leaves-finish false cancelled s h
Leaves-watch (halt ∷ rest) s h = Leaves-finish false halted s h

-- The calls up to the resource manager succeed, and libp2p.New fails.
abbrev pub fails_at_node : (Call → Bool) → Bool
fails_at_node ok =
    ok private_key
    && (ok evm_address
        && (ok bootstrap_list
            && (ok image_dir
                && (ok database_dir
                    && (ok new_bolt && (ok resource_manager && not (ok new_node)))))))

module _ (ok : Call → Bool) (turns : List Turn) where
  Leaves-serve : (s : Going) → HasUnowned false s → Leaves false (serve ok turns s)
  unfolding serve
  Leaves-serve s h =
      Leaves-later (ok save_self) save_self _ s
        (λ u k.
          Leaves-watch turns _
            (unowned-acquire false ticker (note announced u) (unowned-note false announced u k)))
        h

  Leaves-join_network :
      (s : Going) → HasUnowned true s → Leaves (not (ok new_node)) (join_network ok turns s)
  unfolding join_network
  Leaves-join_network s h =
      Leaves-new_node (ok new_node) _ s
        (λ u k.
          Leaves-later (ok new_table) new_table _ _
            (λ v l.
              Leaves-later (ok bootstrap_table) bootstrap_table _ _
                (λ w m. Leaves-serve _ (
                  unowned-acquire false routed (acquire context w)
                    (unowned-acquire false context w m)))
                (unowned-acquire false table v l))
            (unowned-acquire true node u k))
        h

  Leaves-open_store :
      (s : Going)
      → HasUnowned false s
      → Leaves (ok new_bolt && (ok resource_manager && not (ok new_node))) (open_store ok turns s)
  unfolding open_store
  Leaves-open_store s h =
      Leaves-attempt (ok new_bolt) _ new_bolt _ s
        (λ u k.
          Leaves-attempt (ok resource_manager) _ resource_manager _ _
            (λ v l. Leaves-join_network _ (unowned-note false manager_made v l))
            (unowned-acquire false bolt u k))
        h

  pub Leaves-client_run : Leaves (fails_at_node ok) (client_run ok turns)
  unfolding client_run
  Leaves-client_run =
      Leaves-attempt (ok private_key) _ private_key _ nothing
        (λ s h.
          Leaves-attempt (ok evm_address) _ evm_address _ s
            (λ s h.
              Leaves-attempt (ok bootstrap_list) _ bootstrap_list _ s
                (λ s h.
                  Leaves-attempt (ok image_dir) _ image_dir _ s
                    (λ s h. Leaves-attempt (ok database_dir) _ database_dir _ s Leaves-open_store h)
                    h)
                h)
            h)
        refl
