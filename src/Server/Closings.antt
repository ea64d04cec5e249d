-- ===== src/Server/Closings.antt =====
-- What Run of internal/server/server.go leaves open.
use chat_libp2p.Common.{refl, Bool, true, false}
use chat_libp2p.Deferred.{
  node, table, Call, private_key, resource_manager, new_node, new_table, bootstrap_table, halted,
  Going, nothing,
}
use chat_libp2p.Deferred.Balance.{
  IsOpen, IsClosed, IsOpen-acquire, IsOpen-made, IsClosed-finish, IsClosed-attempt,
}
use chat_libp2p.Server.{await_halt, server_run}

IsClosed-await_halt : (closed : Bool) (s : Going) → IsOpen s → IsClosed (await_halt closed s)
unfolding await_halt
IsClosed-await_halt false s h = tt
IsClosed-await_halt true s h = IsClosed-finish halted s h

-- Run of the server, whatever its calls return, either waits for Close, or has called each Close that
-- it deferred just once, for what was opened last first.
pub server_run-IsClosed : (ok : Call → Bool) (closed : Bool) → IsClosed (server_run ok closed)
unfolding server_run
server_run-IsClosed ok closed =
    IsClosed-attempt (ok private_key) private_key _ nothing
      (λ s h.
        IsClosed-attempt (ok resource_manager) resource_manager _ s
          (λ s h.
            IsClosed-attempt (ok new_node) new_node _ _
              (λ u k.
                IsClosed-attempt (ok new_table) new_table _ _
                  (λ v l.
                    IsClosed-attempt (ok bootstrap_table) bootstrap_table _ _
                      (IsClosed-await_halt closed) (IsOpen-acquire table v l))
                  (IsOpen-acquire node u k))
              (IsOpen-made s h))
          h)
      refl
