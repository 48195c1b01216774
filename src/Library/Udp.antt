-- ===== src/Library/Udp.antt =====
-- cpm/cpm_udp_socket.{h,cc}, with the codes of cpm/cpm.h: UdpSocket over the calls of the operating
-- system, which are a parameter.
use cpmd.Base.{
  ℕ, ◌-◌, ◌*◌, ◌/◌, ◌%◌, ◌^◌, Bool, true, false, not, Option, none, some, List, [], ◌∷◌, length,
  ◌==◌, if◌then◌else◌,
}
use cpmd.Base.Bytes.{same}
use cpmd.Base.Outcome.{Outcome, ok, assert, ◌>>=◌, ◌>>◌}
use cpmd.Alpha.{Alpha}

pub data Status : Type 0 where
  status_ok : Status
  already_initialized : Status
  socket_error : Status
  socket_timeout : Status
  invalid_buffer_size : Status
  invalid_reply : Status
  create_bus_failed : Status
  bus_full : Status
  bus_empty : Status
  truncated_message : Status
  invalid_message : Status

-- `status == Status::kOk`
abbrev pub is_ok : Status → Bool
is_ok status_ok = true
is_ok _ = false

-- What select says: -1, 0, or that something is ready, and whether it is this socket.
pub data Selected : Type 0 where
  failed : Selected
  expired : Selected
  ready : Bool → Selected

-- A call with an out parameter: the code of an error, or the bytes that it set.
pub data Received : Type 0 where
  refused : Status → Received
  received : List ℕ → Received

-- The operating system. A socket is the 32-bit pattern of its number.
pub record System ⦃α : Alpha⦄ : Type 0 where
  pub open_socket : α.World → α.World × ℕ
  -- Whether connect gives 0.
  pub connect : α.World → ℕ → α.NetAddress → α.World × Bool
  -- How many bytes were sent; `none` is -1.
  pub send_bytes : α.World → ℕ → List ℕ → α.World × Option ℕ
  -- With the seconds and microseconds to wait.
  pub select : α.World → ℕ → ℕ → ℕ → α.World × Selected
  -- With the size of the buffer; `none` is -1.
  pub recv_bytes : α.World → ℕ → ℕ → α.World × Option (List ℕ)
  pub close_socket : α.World → ℕ → α.World

-- "127.0.0.1"
abbrev pub localhost : List ℕ
localhost = b'1' ∷ b'2' ∷ b'7' ∷ b'.' ∷ b'0' ∷ b'.' ∷ b'0' ∷ b'.' ∷ b'1' ∷ []

abbrev pub no_socket : ℕ
no_socket = 2 ^ 32 - 1

-- The buffer of Recv.
abbrev pub recv_size : ℕ
recv_size = 2 ^ 16

module _ ⦃α : Alpha⦄ ⦃sys : System⦄ where
  -- ~UdpSocket
  unfoldable pub destroy : α.World → ℕ → α.World
  destroy w sock = if sock == no_socket then w else sys.close_socket w sock

  unfoldable pub open_to : α.World → ℕ → α.NetAddress → α.World × ℕ × Status
  open_to w sock a =
      if sock == no_socket
      then (w, sock, socket_error)
      else let (w', done) = sys.connect w sock a in
        (w', sock, (if done then status_ok else socket_error))

  -- UdpSocket::ConnectTo, and the socket.
  unfoldable pub connect_to : α.World → α.NetAddress → Outcome (α.World × ℕ × Status)
  connect_to w a = do
    assert (same (α.ip a) localhost)
    let (w', sock) = sys.open_socket w
    ok (open_to w' sock a)

  -- Whether all was sent.
  abbrev pub all_sent : ℕ → Option ℕ → Status
  all_sent n none = socket_error
  all_sent n (some k) = if k == n then status_ok else socket_error

  unfoldable pub send : α.World → ℕ → List ℕ → α.World × Status
  send w sock bytes =
      let (w', sent) = sys.send_bytes w sock bytes in (w', all_sent (length bytes) sent)

  abbrev pub taken : α.World × Option (List ℕ) → α.World × Received
  taken (w, none) = (w, refused socket_error)
  taken (w, some bytes) = (w, received bytes)

  -- Behind select.
  abbrev pub take_ready : ℕ → α.World × Selected → Outcome (α.World × Received)
  take_ready sock (w, failed) = ok (w, refused socket_error)
  take_ready sock (w, expired) = ok (w, refused socket_timeout)
  take_ready sock (w, ready set) = do assert set; ok (taken (sys.recv_bytes w sock recv_size))

  -- UdpSocket::Recv, for a time to wait that is not negative.
  unfoldable pub recv : α.World → ℕ → ℕ → Outcome (α.World × Received)
  recv w sock timeout = take_ready sock (sys.select w sock (timeout / 1000) (timeout % 1000 * 1000))

  -- The first SendAndRecv.
  unfoldable pub exchange : α.World → ℕ → List ℕ → ℕ → Outcome (α.World × Received)
  exchange w sock bytes timeout =
      let (w', status) = send w sock bytes in
      if is_ok status then recv w' sock timeout else ok (w', refused status)

  abbrev pub sized : ℕ → α.World × Received → α.World × Received
  sized n (w, refused code) = (w, refused code)
  sized n (w, received bytes) =
      (w, (if not (length bytes == n) then refused invalid_reply else received bytes))

  -- The template: an object of the given size comes back.
  unfoldable pub send_and_recv : ℕ → α.World → ℕ → List ℕ → ℕ → Outcome (α.World × Received)
  send_and_recv n w sock bytes timeout = do
    answer ← exchange w sock bytes timeout
    ok (sized n answer)
