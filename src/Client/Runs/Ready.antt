-- ===== src/Client/Runs/Ready.antt =====
-- How often Run of internal/client/client.go closes OK.
use chat_libp2p.Common.{
  ℕ, Bool-cases, inl, inr, ◌≡◌, refl, subst, Bool, true, false, List, [], ◌∷◌, ◌&&◌, ◌==◌,
}
use chat_libp2p.Deferred.{
  bolt, node, table, context, routed, ticker, announced, Call, private_key, evm_address,
  bootstrap_list, image_dir, database_dir, new_bolt, resource_manager, new_node, new_table,
  bootstrap_table, save_self, disconnected, cancelled, halted, Going, nothing, acquire, note,
}
use chat_libp2p.Deferred.Announced.{
  announcements, notes_of, once, HasAnnounced, Announces, HasAnnounced-acquire, HasAnnounced-note,
  HasAnnounced-made, Announces-finish, Announces-attempt,
}
use chat_libp2p.Client.Runs.{
  Turn, tick, done, halt, watch, serve, join_network, open_store, client_run,
}

and-true : (b : Bool) → (b && true) ≡ b
and-true true = refl
and-true false = refl

Announces-watch :
    (n : ℕ) (turns : List Turn) (s : Going) → HasAnnounced n s → Announces n (watch turns s)
unfolding watch
Announces-watch n [] s h = h
Announces-watch n (tick k ∷ rest) s h = elim (Bool-cases (k == 0)) [
  | inl alone ↦ rw alone (Announces-finish n disconnected s h)
  | inr linked ↦ rw linked (Announces-watch n rest s h)
]
Announces-watch n (done ∷ rest) s h = Announces-finish n cancelled s h
Announces-watch n (halt ∷ rest) s h = Announces-finish n halted s h

-- None of the calls returns an error.
abbrev pub ready : (Call → Bool) → Bool
ready ok =
    ok private_key
    && (ok evm_address
        && (ok bootstrap_list
            && (ok image_dir
                && (ok database_dir
                    && (ok new_bolt
                        && (ok resource_manager
                            && (ok new_node
                                && (ok new_table && (ok bootstrap_table && ok save_self)))))))))

module _ (ok : Call → Bool) (turns : List Turn) where
  Announces-serve :
      (s : Going) → HasAnnounced 0 s → Announces (once (ok save_self)) (serve ok turns s)
  unfolding serve
  Announces-serve s h =
      subst (λ b. Announces (once b) (serve ok turns s)) (and-true (ok save_self))
        (Announces-attempt (ok save_self) true save_self _ s
          (λ u k.
            Announces-watch 1 turns _
              (HasAnnounced-acquire 1 ticker (note announced u) (HasAnnounced-note 0 u k)))
          h)

  Announces-join_network :
      (s : Going)
      → HasAnnounced 0 s
      → Announces
          (once (ok new_node && (ok new_table && (ok bootstrap_table && ok save_self))))
          (join_network ok turns s)
  unfolding join_network
  Announces-join_network s h =
      Announces-attempt (ok new_node) _ new_node _ s
        (λ u k.
          Announces-attempt (ok new_table) _ new_table _ _
            (λ v l.
              Announces-attempt (ok bootstrap_table) _ bootstrap_table _ _
                (λ w m. Announces-serve _ (
                  HasAnnounced-acquire 0 routed (acquire context w)
                    (HasAnnounced-acquire 0 context w m)))
                (HasAnnounced-acquire 0 table v l))
            (HasAnnounced-acquire 0 node u k))
        h

  Announces-open_store :
      (s : Going)
      → HasAnnounced 0 s
      → Announces
          (once (
            ok new_bolt
            && (ok resource_manager
                && (ok new_node && (ok new_table && (ok bootstrap_table && ok save_self))))))
          (open_store ok turns s)
  unfolding open_store
  Announces-open_store s h =
      Announces-attempt (ok new_bolt) _ new_bolt _ s
        (λ u k.
          Announces-attempt (ok resource_manager) _ resource_manager _ _
            (λ v l. Announces-join_network _ (HasAnnounced-made 0 v l))
            (HasAnnounced-acquire 0 bolt u k))
        h

  -- Run closes the channel OK once if none of its calls returns an error, and else never.
  pub client_run-ready : announcements (notes_of (client_run ok turns)) ≡ once (ready ok)
  unfolding client_run
  client_run-ready =
      Announces-attempt (ok private_key) _ private_key _ nothing
        (λ s h.
          Announces-attempt (ok evm_address) _ evm_address _ s
            (λ s h.
              Announces-attempt (ok bootstrap_list) _ bootstrap_list _ s
                (λ s h.
                  Announces-attempt (ok image_dir) _ image_dir _ s
                    (λ s h.
                      Announces-attempt (ok database_dir) _ database_dir _ s Announces-open_store h)
                    h)
                h)
            h)
        refl
