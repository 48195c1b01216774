-- ===== src/Library/HandShake/Crossed.antt =====
-- A client's request (cpm/cpm_impl.cc) and cpmd's reply to it (cpm/cpm_server.cc).
use cpmd.Base.{ℕ, ◌<◌, ◌≡◌, refl, ◌∙◌, ◌⊎◌, inl, inr, ==_iff, some, List, length, arith}
use cpmd.Base.Map
use cpmd.Base.Map.{nat_key}
use cpmd.Base.Outcome.{ok, ◌>>=◌}
use cpmd.Alpha.{Alpha}
use cpmd.Address.{Address, create}
use cpmd.Message.Layout.{IsWord}
use cpmd.Protocol.{sizeof_protocol_message, max_name_size, ok_code, failed_to_create_bus}
use cpmd.Protocol.Fields.{IsText}
use cpmd.Server.{Server}
use cpmd.Server.Init.{
  HandShakeRequest, input_suffix, output_suffix, get_input_bus_path, get_output_bus_path,
  reply_code, serve_request, handle_init_command,
}
use cpmd.Server.Init.Accept.{joined, accepted, BothBuses, LacksBus, serve_request_cases}
use cpmd.Library.{hand_shake_request, input_tunnel_path, output_tunnel_path}
use cpmd.Library.HandShake.{
  length-hand_shake_request, name_ends-hand_shake_request, request_of-hand_shake_request,
  get_bus_path-IsText, length-get_bus_path, input_tunnel_path-reply, output_tunnel_path-reply,
}

input-IsText : (location name : List ℕ) → IsText (get_input_bus_path location name)
unfolding get_input_bus_path
input-IsText location name = get_bus_path-IsText input_suffix location name (omega arith)

output-IsText : (location name : List ℕ) → IsText (get_output_bus_path location name)
unfolding get_output_bus_path
output-IsText location name = get_bus_path-IsText output_suffix location name (omega arith)

module _ ⦃α : Alpha⦄ (s : Server) (name memory out : List ℕ) (size : ℕ) (text : IsText name)
    (short : length name < max_name_size) (word : IsWord size)
    (request_whole : length memory ≡ sizeof_protocol_message)
    (reply_whole : length out ≡ sizeof_protocol_message) where
  abbrev pub asked : HandShakeRequest
  asked = record { buffer_size = size; name = name }

  handled :
      handle_init_command s (hand_shake_request name size memory) out
      ≡ (serve_request s asked out >>= λ (t, reply). ok (t, some reply))
  unfolding handle_init_command
  handled =
      rw
        (
          (==_iff _ _).1 (length-hand_shake_request name memory size text short request_whole),
          name_ends-hand_shake_request name memory size text short request_whole,
          request_of-hand_shake_request name memory size text short request_whole word,
        )
        refl

  -- The paths in the reply to a client that joins.
  abbrev Named : List ℕ → Type 0
  Named reply =
      (input_tunnel_path reply ≡ get_output_bus_path s.bus_location name)
      × (output_tunnel_path reply ≡ get_input_bus_path s.bus_location name)

  accepted-Named : Named (accepted s asked out)
  unfolding get_input_bus_path get_output_bus_path
  accepted-Named =
      let p = get_output_bus_path s.bus_location name in
      let q = get_input_bus_path s.bus_location name in
      let tp = output-IsText s.bus_location name in
      let tq = input-IsText s.bus_location name in
      let sp = length-get_bus_path output_suffix s.bus_location name in
      let sq = length-get_bus_path input_suffix s.bus_location name in
      (
        input_tunnel_path-reply ok_code p q out tp tq sp sq reply_whole,
        output_tunnel_path-reply ok_code p q out tp tq sp sq reply_whole,
      )

  -- The request that the client library writes for a name without zeros that fits and a 32-bit
  -- size, into any message object, makes cpmd return, with a reply. Either the world, asked for
  -- both of the client's buses, refuses one, the reply has the code of this failure, and no client
  -- joins; or the world gives a bus at the path of cpmd's input for this name and then one at the
  -- path of cpmd's output, a client with this name and address joins that reads the first and
  -- writes the second, unless that address is taken, and where the library looks for the path of
  -- its input the reply has the path of cpmd's output, and the other way round.
  pub hand_shake_request-handle_init_command :
      ((w : α.World) × LacksBus s asked out w
        × (handle_init_command s (hand_shake_request name size memory) out
            ≡ ok (record s { net = w }, some (reply_code failed_to_create_bus out))))
      ⊎ ((w : α.World) × (addr : Address) × (i : α.Bus) × (o : α.Bus) × (reply : List ℕ) × (create
              name
            ≡ ok addr)
          × BothBuses s asked out w i o
          × (handle_init_command s (hand_shake_request name size memory) out
              ≡ ok (
                record s {
                  net = w;
                  clients =
                      (Map.emplace addr.client_addr (joined s asked out addr i o) s.clients).0;
                },
                some reply,
              ))
          × (input_tunnel_path reply ≡ get_output_bus_path s.bus_location name)
          × (output_tunnel_path reply ≡ get_input_bus_path s.bus_location name))
  hand_shake_request-handle_init_command = elim (serve_request_cases s asked out) [
    | inl (w, lacks, e) ↦ inl (w, lacks, handled ∙ rw e refl)
    | inr (w, addr, i, o, f, both, e) ↦ inr (
      w,
      addr,
      i,
      o,
      accepted s asked out,
      f,
      both,
      handled ∙ rw e refl,
      accepted-Named.0,
      accepted-Named.1,
    )
  ]
