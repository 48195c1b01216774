-- ===== src/Tests/Net.antt =====
-- A network in memory: what is written is kept, in front of what was, connection 0 is closed, and a
-- write to connection 9 fails. A bus is a list of what was written.
use cpmd.Base.{ℕ, true, not, Option, none, some, List, [], ◌∷◌, ◌==◌}
use cpmd.Base.Map.{nat_key}
use cpmd.Alpha.{Alpha}
use cpmd.Message.{Message, magic_number}

-- A bus gives the message that was put in front.
abbrev pub first_of : List (List ℕ) → List (List ℕ) × Option (List ℕ)
first_of [] = ([], none)
first_of (x ∷ xs) = (xs, some x)

instance abbrev pub net : Alpha
net = record {
  NetAddress = ℕ;
  net_key = nat_key;
  make_address = λ ip port. port;
  ip = λ a. [];
  port = λ a. a;
  World = List (List ℕ);
  Conn = ℕ;
  alive = λ w c. true;
  closed = λ w c. c == 0;
  write = λ w c bytes. (bytes ∷ w, not (c == 9));
  close = λ w c. w;
  conn_key = nat_key;
  peer_addr = λ c. c;
  connect_to = λ w a. (a ∷ []) ∷ w;
  connect_after = λ w delay a. (a ∷ delay ∷ []) ∷ w;
  listen = λ w a. (w, true);
  start_udp = λ w a. (w, true);
  log_every = λ w delay. w;
  set_on_read = λ w c. w;
  close_after = λ w delay c. ((c ∷ delay ∷ []) ∷ w, delay);
  remove_timer = λ w id. w;
  Bus = List (List ℕ);
  bus_write = λ b bytes. (bytes ∷ b, true);
  bus_read = first_of;
  restore_or_create = λ w path n. (w, some []);
  restore_from = λ w path n. (w, some []);
}

-- The message "hi" from client 5 of node 1 to client 6 of node 7.
abbrev pub hello : Message
hello = record {
  from = record { node_addr = 1; client_addr = 5 };
  to = record { node_addr = 7; client_addr = 6 };
  magic = magic_number;
  len = 2;
  data_ = b'h' ∷ b'i' ∷ [];
}
