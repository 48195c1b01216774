-- ===== src/Server/Bus.antt =====
-- Server::HandleBusMessage (cpm/cpm_server.cc): one turn over the clients' buses. The clients are
-- visited in the order of their addresses, and each bus is read until it gives nothing. The
-- recursion on the rounds of the inner loop is on fuel; `none` means that it ran out.
pub mod Inputs
pub mod Turn
use cpmd.Base.{
  ℕ, zero, suc, Bool, true, false, ◌||◌, Option, none, some, List, [], ◌∷◌, map, ◌==◌,
  if◌then◌else◌,
}
use cpmd.Base.Outcome.{Outcome, ok, deref, ◌>>=◌}
use cpmd.Alpha.{Alpha}
use cpmd.Address.{create_directly}
use cpmd.Message.{Message, set_source_address}
use cpmd.Client.{ClientInfo, read_message}
use cpmd.Server.{Server}
use cpmd.Server.Route.{find_client, put_client, handle_to_local_message, handle_to_remote_message}

module _ ⦃α : Alpha⦄ where
  -- The body of the inner loop, on the message that client `c` sent.
  unfoldable pub dispatch : Server → ClientInfo → Message → Outcome Server
  dispatch s c m =
      let sent = set_source_address m (create_directly s.self_address c.addr.client_addr) in
      if m.to.node_addr == s.self_address || m.to.node_addr == 0
      then handle_to_local_message s sent
      else handle_to_remote_message s sent

  -- The inner loop, over the client at a key: whether a message was read, and the server.
  unfoldable pub drain : ℕ → ℕ → Bool → Server → Outcome (Option (Bool × Server))
  drain zero a busy s = ok none
  drain (suc fuel) a busy s = do
    c ← deref (find_client s a)
    (c', got) ← read_message c
    let s' = put_client a c' s
    elim got [
      | none ↦ ok (some (busy, s'))
      | some m ↦ dispatch s' c' m >>= λ t. drain fuel a true t
    ]

  unfoldable pub drain_all : ℕ → List ℕ → Bool → Server → Outcome (Option (Bool × Server))
  drain_all fuel [] busy s = ok (some (busy, s))
  drain_all fuel (a ∷ as_) busy s =
      drain fuel a busy s >>= λ r. elim r [ none ↦ ok none | some (b, t) ↦ drain_all fuel as_ b t ]

  -- kBusy is true, kIdle false.
  unfoldable pub handle_bus_message : ℕ → Server → Outcome (Option (Bool × Server))
  handle_bus_message fuel s = drain_all fuel (map (λ p. p.0) s.clients) false s
