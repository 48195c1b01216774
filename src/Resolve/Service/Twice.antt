-- ===== src/Resolve/Service/Twice.antt =====
-- HandleNodeInit (cpm/cpm_resolve_server.cc) for an address that is taken, or over a connection that
-- has one.
use cpmd.Base.{
  Bool, true, false, ℕ, ◌≡◌, refl, ◌⊎◌, inl, inr, Option-cases, some, List, length, ltb,
}
use cpmd.Base.Map
use cpmd.Base.Map.{nat_key}
use cpmd.Base.Outcome.{Outcome, ok, aborted, invalid, beyond, ◌>>=◌, assert}
use cpmd.Alpha.{Alpha}
use cpmd.Protocol.{ProtocolMessage, max_ip_size, max_node_path_size}
use cpmd.Protocol.Request.{ResolveRequest}
use cpmd.Protocol.Response.{set_node_ip, set_node_path}
use cpmd.Resolve.Conf.{ConfNode, get_node_info_by_net_address}
use cpmd.Resolve.Service.{Service, node, context, init_reply, admit, handle_node_init}
use cpmd.Resolve.Service.Valid.{registry}

-- Code that at worst fails an assert.
abbrev Asserts {ℓ} : {A : Type ℓ} → Outcome A → Type 0
Asserts (ok a) = Unit
Asserts aborted = Unit
Asserts invalid = ⊥
Asserts beyond = ⊥

Asserts->>= {ℓ κ} :
    {A : Type ℓ} {B : Type κ} (m : Outcome A) (f : A → Outcome B)
    → Asserts m
    → ((a : A) → Asserts (f a))
    → Asserts (m >>= f)
Asserts->>= (ok a) f h k = k a
Asserts->>= aborted f h k = tt
Asserts->>= invalid f h k = absurd h
Asserts->>= beyond f h k = absurd h

Asserts-assert : (b : Bool) → Asserts (assert b)
Asserts-assert true = tt
Asserts-assert false = tt

-- An assert behind such code.
aborts-behind {ℓ} :
    {A : Type 0} {B : Type ℓ} (m : Outcome A) (f : A → Outcome B)
    → Asserts m
    → ((a : A) → f a ≡ aborted)
    → (m >>= f) ≡ aborted
aborts-behind (ok a) f h k = k a
aborts-behind aborted f h k = refl
aborts-behind invalid f h k = absurd h
aborts-behind beyond f h k = absurd h

set_node_ip-Asserts : (ip : List ℕ) (m : ProtocolMessage) → Asserts (set_node_ip ip m)
unfolding set_node_ip
set_node_ip-Asserts ip m =
    Asserts->>= (assert (ltb (length ip) max_ip_size)) _
      (Asserts-assert (ltb (length ip) max_ip_size)) λ u. tt

set_node_path-Asserts : (path : List ℕ) (m : ProtocolMessage) → Asserts (set_node_path path m)
unfolding set_node_path
set_node_path-Asserts path m =
    Asserts->>= (assert (ltb (length path) max_node_path_size)) _
      (Asserts-assert (ltb (length path) max_node_path_size)) λ u. tt

module _ ⦃α : Alpha⦄ where
  init_reply-Asserts : (n : ConfNode) (port : ℕ) (ip : List ℕ) → Asserts (init_reply n port ip)
  unfolding init_reply
  init_reply-Asserts n port ip =
      Asserts->>= (set_node_ip ip _) _ (set_node_ip-Asserts ip _)
        λ m. set_node_path-Asserts n.readable_addr m

  -- The address has a connection, or the connection has an address.
  abbrev pub IsTaken : Service → α.Conn → ℕ → Type 0
  IsTaken s c k =
      ((d : α.Conn) × (registry s k ≡ some d)) ⊎ ((a : ℕ) × (context s c ≡ some (node a)))

  admit-aborts :
      (n : ConfNode) (s : Service) (c : α.Conn) → IsTaken s c n.node_addr → admit n s c ≡ aborted
  unfolding admit
  admit-aborts n s c (inl (d, e)) = rw (Map.emplace-eq_some n.node_addr c d s.connections e) refl
  admit-aborts n s c (inr (a, e)) = elim (Option-cases (registry s n.node_addr)) [
    | inl free ↦ rw (Map.emplace-eq_none n.node_addr c s.connections free, e) refl
    | inr (d, there) ↦ rw (Map.emplace-eq_some n.node_addr c d s.connections there) refl
  ]

  -- A first request for a node of the configuration whose address is registered already, or over a
  -- connection that has an address, fails an assert and stops the resolve server.
  pub handle_node_init-aborts :
      (s : Service) (c : α.Conn) (req : ResolveRequest) (n : ConfNode)
      → get_node_info_by_net_address s.conf (α.make_address (α.ip (α.peer_addr c)) req.cpmd_port)
        ≡ some n
      → IsTaken s c n.node_addr
      → handle_node_init s c req ≡ aborted
  unfolding handle_node_init
  handle_node_init-aborts s c req n listed taken = rw listed (
      aborts-behind (init_reply n req.cpmd_port (α.ip (α.peer_addr c))) _
        (init_reply-Asserts n req.cpmd_port (α.ip (α.peer_addr c)))
        λ reply. rw (admit-aborts n s c taken) refl)
