-- ===== src/Alpha.antt =====
-- What cpmd asks of the alpha library (a git submodule, not part of the repository's text):
-- network addresses, TCP connections, the client that opens them, timers and process buses.
-- The state behind the calls is one abstract world, which each call that acts on it replaces.
use cpmd.Base.{ℕ, Bool, Option, List}
use cpmd.Base.Map.{Key}

pub record Alpha : Type 1 where
  -- alpha::NetAddress. A port is an int, as its 32-bit pattern.
  pub NetAddress : Type 0
  pub net_key : Key NetAddress
  pub make_address : List ℕ → ℕ → NetAddress
  pub ip : NetAddress → List ℕ
  pub port : NetAddress → ℕ
  -- alpha::TcpConnectionPtr; `alive` says whether a weak pointer can be locked.
  pub World : Type 0
  pub Conn : Type 0
  pub alive : World → Conn → Bool
  pub closed : World → Conn → Bool
  pub write : World → Conn → List ℕ → World × Bool
  pub close : World → Conn → World
  pub conn_key : Key Conn
  pub peer_addr : Conn → NetAddress
  -- TcpClient::ConnectTo, at once and after a delay in milliseconds (EventLoop::RunAfter).
  pub connect_to : World → NetAddress → World
  pub connect_after : World → ℕ → NetAddress → World
  -- TcpServer::Run at an address.
  pub listen : World → NetAddress → World × Bool
  -- UdpServer::Start at an address, and EventLoop::RunEvery with a line of the log.
  pub start_udp : World → NetAddress → World × Bool
  pub log_every : World → ℕ → World
  -- TcpConnection::SetOnRead with the callback of the protocol messages.
  pub set_on_read : World → Conn → World
  -- EventLoop::RunAfter with a close of the connection, and the timer's id; and RemoveTimer.
  pub close_after : World → ℕ → Conn → World × ℕ
  pub remove_timer : World → ℕ → World
  -- alpha::ProcessBus
  pub Bus : Type 0
  pub bus_write : Bus → List ℕ → Bus × Bool
  pub bus_read : Bus → Bus × Option (List ℕ)
  pub restore_or_create : World → List ℕ → ℕ → World × Option Bus
  pub restore_from : World → List ℕ → ℕ → World × Option Bus
