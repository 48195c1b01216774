-- ===== src/Library.antt =====
-- cpm/cpm.h, cpm/cpm_options.{h,cc} and cpm/cpm_impl.{h,cc}: the library that a local client links.
pub mod Udp
pub mod HandShake
pub mod Join
pub mod Limits
use cpmd.Base.{
  ◌&&◌, ℕ, ◌+◌, ◌-◌, ◌^◌, Bool, true, false, not, ◌||◌, Option, none, some, List, length, drop, ltb,
  leb, is_some, if◌then◌else◌,
}
use cpmd.Base.Outcome.{within, Outcome, ok, assert, assert_some, deref, ◌>>=◌, ◌>>◌}
use cpmd.Alpha.{Alpha}
use cpmd.Message.{Message, min_size, max_size, word_bytes, serialize, message_at}
use cpmd.Protocol.{
  max_name_size, max_path_size, min_protocol_message_size, sizeof_protocol_message, c_string,
  has_end, strncpy, write_at,
}
use Udp.{
  Status, status_ok, is_ok, create_bus_failed, bus_full, bus_empty, truncated_message,
  invalid_message, System, Received, refused, received, localhost, connect_to, send_and_recv,
  destroy,
}

pub record Options : Type 0 where
  pub port : ℕ
  pub buffer_size : ℕ

unfoldable pub default_options : Options
default_options = record { port = 8123; buffer_size = 2 ^ 20 }

unfoldable pub set_server_port : Options → ℕ → Options
set_server_port o port = record o { port = port }

unfoldable pub set_buffer_size : Options → ℕ → Options
set_buffer_size o size = record o { buffer_size = size }

-- kDefaultTimeout, in milliseconds.
abbrev pub default_timeout : ℕ
default_timeout = 1000

-- The fields of a HandShakeRequest, written to the bytes of a ProtocolMessage that nothing has cleared.
unfoldable pub hand_shake_request : List ℕ → ℕ → List ℕ → List ℕ
hand_shake_request name size memory =
    write_at min_protocol_message_size (word_bytes size)
      (write_at (min_protocol_message_size + 4) (strncpy name max_name_size) memory)

-- The paths of a HandShakeResponse.
unfoldable pub input_tunnel_path : List ℕ → List ℕ
input_tunnel_path reply = c_string (drop (min_protocol_message_size + 2) reply)

unfoldable pub output_tunnel_path : List ℕ → List ℕ
output_tunnel_path reply = c_string (drop (min_protocol_message_size + 2 + max_path_size) reply)

-- Whether both end within the reply.
unfoldable pub tunnel_paths_end : List ℕ → Bool
tunnel_paths_end reply =
    has_end (drop (min_protocol_message_size + 2) reply)
    && has_end (drop (min_protocol_message_size + 2 + max_path_size) reply)

-- What ReceiveMessage makes of what the bus gave.
unfoldable pub accept : Option (List ℕ) → Status × Option Message
accept none = (bus_empty, none)
accept (some bytes) =
    if ltb (length bytes) min_size
    then (truncated_message, none)
    else if leb max_size (length bytes)
    then (invalid_message, none)
    else (status_ok, some (message_at bytes))

module _ ⦃α : Alpha⦄ where
  pub record ClientImpl : Type 0 where
    pub name : List ℕ
    pub options : Options
    pub input : Option α.Bus
    pub output : Option α.Bus

  unfoldable pub new : List ℕ → Options → ClientImpl
  new name options = record { name = name; options = options; input = none; output = none }

  -- Both buses are restored before either is looked at.
  unfoldable pub restore_buses : α.World → ClientImpl → List ℕ → α.World × ClientImpl × Status
  restore_buses w c reply =
      let (w', input) = α.restore_from w (input_tunnel_path reply) c.options.buffer_size in
      let (w'', output) = α.restore_from w' (output_tunnel_path reply) c.options.buffer_size in
      let status : Status =
        if not (is_some input) || not (is_some output) then create_bus_failed else status_ok in
      (w'', record c { input = input; output = output }, status)

  -- Behind SendAndRecv.
  abbrev pub replied : ClientImpl → α.World × Received → Outcome (α.World × ClientImpl × Status)
  replied c (w, refused code) = ok (w, c, code)
  replied c (w, received reply) = do within (tunnel_paths_end reply); ok (restore_buses w c reply)

  unfoldable pub send_message : ClientImpl → Message → Outcome (ClientImpl × Status)
  send_message c m = do
    b ← deref c.output
    let (b', done) = α.bus_write b (serialize m)
    ok (record c { output = some b' }, (if done then status_ok else bus_full))

  unfoldable pub receive_message : ClientImpl → Outcome (ClientImpl × Status × Option Message)
  unfolding accept
  receive_message c = do
    b ← deref c.input
    let (b', got) = α.bus_read b
    let (status, m) = accept got
    ok (record c { input = some b' }, status, m)

  module _ ⦃sys : System⦄ where
    -- The part of Init that has a socket.
    unfoldable pub shake :
        α.World → ℕ → List ℕ → ClientImpl → Outcome (α.World × ClientImpl × Status)
    shake w sock memory c = do
      assert (leb (length c.name) (max_name_size - 1))
      answer ←
          send_and_recv sizeof_protocol_message w sock
            (hand_shake_request c.name c.options.buffer_size memory) default_timeout
      replied c answer

    -- ClientImpl::Init, where `memory` is what lies in the request. The socket is closed at its end.
    unfoldable pub init : α.World → List ℕ → ClientImpl → Outcome (α.World × ClientImpl × Status)
    init w memory c = do
      (w', sock, status) ← connect_to w (α.make_address localhost c.options.port)
      (w'', c', status') ← (if is_ok status then shake w' sock memory c else ok (w', c, status))
      ok (destroy w'' sock, c', status')

    -- Client::Create
    unfoldable pub create :
        α.World → List ℕ → List ℕ → Options → Outcome (α.World × Option ClientImpl × Status)
    create w memory name options = do
      (w', c, status) ← init w memory (new name options)
      ok (w', (if is_ok status then some c else none), status)
