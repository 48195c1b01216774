-- ===== src/Server/Init/Accept.antt =====
-- The outcomes of the hand shake (Server::HandleInitCommand in cpm/cpm_server.cc).
use cpmd.Base.{
  ℕ, ◌≡◌, refl, ◌⊎◌, inl, inr, true, Option-cases, Option, none, some, List, length, take,
  length-take_le, ltb, lt→ltb, arith,
}
use cpmd.Base.Map
use cpmd.Base.Map.{nat_key}
use cpmd.Base.Outcome.{ok}
use cpmd.Alpha.{Alpha}
use cpmd.Address.{Address, create}
use cpmd.Address.Create.{create-total}
use cpmd.Protocol.{max_path_size, ok_code, failed_to_create_bus}
use cpmd.Client.{ClientInfo, set_input_bus, set_output_bus}
use cpmd.Client
use cpmd.Server.{Server}
use cpmd.Server.Init.{
  HandShakeRequest, get_bus_path, get_input_bus_path, get_output_bus_path, reply_code,
  reply_output_path, reply_input_path, accept_client, serve_request,
}

take-fits : (xs : List ℕ) → ltb (length (take 127 xs)) max_path_size ≡ true
take-fits xs = lt→ltb (length (take 127 xs)) max_path_size (omega (arith, length-take_le 127 xs))

get_input_bus_path-fits :
    (location name : List ℕ) → ltb (length (get_input_bus_path location name)) max_path_size ≡ true
unfolding get_input_bus_path get_bus_path
get_input_bus_path-fits location name = take-fits _

get_output_bus_path-fits :
    (location name : List ℕ) → ltb (length (get_output_bus_path location name)) max_path_size ≡ true
unfolding get_output_bus_path get_bus_path
get_output_bus_path-fits location name = take-fits _

module _ ⦃α : Alpha⦄ (s : Server) (req : HandShakeRequest) (out : List ℕ) where
  -- The client that joins, and the reply that it gets: what cpmd reads is the client's output.
  abbrev pub joined : Address → α.Bus → α.Bus → ClientInfo
  joined addr i o = record { name = req.name; addr = addr; input = some i; output = some o }

  abbrev pub accepted : List ℕ
  accepted =
      reply_input_path (get_output_bus_path s.bus_location req.name)
        (reply_output_path (get_input_bus_path s.bus_location req.name) (reply_code ok_code out))

  accept_client-eq :
      (t : Server) (addr : Address) (i o : α.Bus)
      → t.bus_location ≡ s.bus_location
      → create req.name ≡ ok addr
      → accept_client t req (some i) (some o) out
        ≡ ok (
          record t { clients = (Map.emplace addr.client_addr (joined addr i o) t.clients).0 },
          accepted,
        )
  unfolding accept_client set_input_bus set_output_bus Client.new
  accept_client-eq t addr i o l e = rw (
    e,
    l,
    get_input_bus_path-fits s.bus_location req.name,
    get_output_bus_path-fits s.bus_location req.name,
  )

  abbrev input_path : List ℕ
  input_path = get_input_bus_path s.bus_location req.name

  abbrev output_path : List ℕ
  output_path = get_output_bus_path s.bus_location req.name

  -- The world gives a bus at the input's path and then one at the output's.
  abbrev pub BothBuses : α.World → α.Bus → α.Bus → Type 0
  BothBuses w i o =
      (v : α.World) × (α.restore_or_create s.net input_path req.buffer_size ≡ (v, some i))
      × (α.restore_or_create v output_path req.buffer_size ≡ (w, some o))

  -- It is asked for both, and refuses one of them.
  abbrev pub LacksBus : α.World → Type 0
  LacksBus w =
      (v : α.World) × (x : Option α.Bus) × (y : Option α.Bus) × (α.restore_or_create s.net
          input_path req.buffer_size
        ≡ (v, x))
      × (α.restore_or_create v output_path req.buffer_size ≡ (w, y))
      × ((x ≡ none) ⊎ (y ≡ none))

  -- A hand shake always returns: either a bus is missing, the reply says so and no client joins;
  -- or a client that reads the bus of the input's path and writes the one of the output's joins
  -- under the address of its name, unless that address is taken, and the reply names both paths.
  pub serve_request_cases :
      ((w : α.World) × LacksBus w
        × (serve_request s req out
            ≡ ok (record s { net = w }, reply_code failed_to_create_bus out)))
      ⊎ ((w : α.World) × (addr : Address) × (i : α.Bus) × (o : α.Bus) × (create req.name ≡ ok addr)
          × BothBuses w i o
          × (serve_request s req out
              ≡ ok (
                record s {
                  net = w;
                  clients = (Map.emplace addr.client_addr (joined addr i o) s.clients).0;
                },
                accepted,
              )))
  unfolding serve_request
  serve_request_cases =
      let first = α.restore_or_create s.net input_path req.buffer_size in
      let second = α.restore_or_create first.0 output_path req.buffer_size in
      elim (Option-cases first.1) [
        | inl e ↦ inl (second.0, (first.0, first.1, second.1, refl, refl, inl e), rw e)
        | inr (i, e) ↦ elim (Option-cases second.1) [
          | inl f ↦ inl (second.0, (first.0, first.1, second.1, refl, refl, inr f), rw (e, f))
          | inr (o, f) ↦
              let t : Server = record s { net = second.0 } in
              let (addr, named) = create-total req.name in
              inr (
                second.0,
                addr,
                i,
                o,
                named,
                (first.0, (λ j. (first.0, e j)), λ j. (second.0, f j)),
                rw (e, f) (accept_client-eq t addr i o refl named),
              )
        ]
      ]
