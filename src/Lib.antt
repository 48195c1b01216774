-- ===== src/Lib.antt =====
-- Verification library for cpmd, a daemon that carries messages between processes.
--
-- The program. Local clients talk to cpmd over two shared buses each; cpmd daemons talk to each other
-- over TCP, and ask a resolve server for each other's network addresses. A message carries two
-- addresses, each a pair of hashes: of a node's path and of a client's name.
--
-- What models what:
--   Address, Address/Hash     cpm/cpm_address.{h,cc}: Address, its Create and its MurmurHash.
--   Message                   cpm/cpm_message.{h,cc}: Message as it lies in memory.
--   Message/Codec             cpm/cpm_message_codec.cc: MessageCodec::OnRead.
--   Queue                     cpm/cpm_message_cache_queue.{h,cc}: MessageCacheQueue.
--   Node                      cpm/cpm_node.{h,cc}: Node, with its cache and its connection.
--   Protocol, Protocol/...    cpm/cpm_protocol.{h,cc}: protocol messages, their readers and builders.
--   Client                    cpm/cpm_client_info.{h,cc}: ClientInfo.
--   Library, Library/...      cpm/cpm.h, cpm/cpm_impl.{h,cc}, cpm/cpm_options.{h,cc}: the client library.
--   Library/Udp               cpm/cpm_udp_socket.{h,cc}: UdpSocket.
--   Protocol/Codec            cpm/cpm_protocol_message_codec.cc: ProtocolMessageCodec::OnRead.
--   Resolve/Conf, Resolve/Load  cpm/cpm_resolve_server_conf.{h,cc}: the configuration.
--   Resolve/Service, .../...  cpm/cpm_resolve_server.{h,cc}: the resolve server, its steps, its answers.
--   Server                    cpm/cpm_server.{h,cc}: the state of Server, and its tables.
--   Server/Resolver, .../Requests  requests to the resolve server and its answers.
--   Server/Peers              connections that open, fail to open, or close.
--   Server/Route, .../...     HandleToLocalMessage, HandleToRemoteMessage, HandleRemoteNodeMessage.
--   Server/Bus, Server/Bus/...  HandleBusMessage, what it leaves alone and where it ends.
--   Server/Init               HandleInitCommand, and the paths of the buses.
--   Server/Events             the callbacks that Server::Run installs, as one step.
--   Server/Start, .../Safe    the constructor of Server, and Server::Run.
--   Server/Incoming           MessageCodec on the connections of other nodes.
--   Delivery, Delivery/...    a message's whole way: client library, cpmd, another cpmd, client library.
--   Chat, Chat/Room           examples/chatroom/chat_protocol.{h,cc}, chat_server.cc: the chat room.
--   Chat/Member, .../...      examples/chatroom/chat_client.cc: a member of the chat room.
--   Programs/TestClient       cpm/cpm_client_main.cc: the test client.
--   Programs/Daemon           cpm/cpm_main.cc: cpmd.
--   Programs/ResolveMain      cpm/cpm_resolve_server_main.cc: the resolve server.
--   Alpha                     what the code asks of the alpha library, a git submodule.
--   Boost                     what the code asks of boost::property_tree.
--   Base, Base/...            lists, maps, bits, tests, and the outcomes of a call.
--   Tests, Tests/...          a network in memory, and runs.
-- The names follow the source: HandleToRemoteMessage is handle_to_remote_message, a member net_address_
-- is `address`, and a member function that changes its object returns the object.
--
-- How the parts meet. A client library and cpmd meet in the hand shake (Library/HandShake) and on the
-- buses (Library/Limits); cpmd and the resolve server meet in the requests (Server/Resolver/Requests,
-- Resolve/Service/Admits) and the answers (Resolve/Service/Answer), with ProtocolMessageCodec between
-- them; two cpmd daemons meet in MessageCodec, whose bytes may come in any pieces
-- (Message/Codec/Chunks). Delivery puts the parts together: what SendMessage leaves on the sender's
-- bus, the rounds of cpmd over this bus (Delivery/Rounds, Delivery/Leaving), the connection, the
-- other cpmd (Delivery/Arriving), and ReceiveMessage (Delivery/Ends); and, for a node that cpmd
-- does not know yet, the request, its answer and the connection that comes of it
-- (Delivery/FirstMessage, Resolve/Service/Asked, Delivery/ColdStart). The two ends of a bus are
-- one file in memory, and a bus there is a queue of byte strings (IsQueue). The test client and
-- the chat room stand on the client library.
--
-- How state is modelled. A Server is a record that each handler takes and returns. A Node* is the key
-- of the node in the map of nodes, from which nothing is ever taken out; the index by network address
-- holds keys. All that happens outside of the process (connections, timers, buses that are created) is
-- one abstract world, which the operations of Alpha replace; an event may replace it by any other, since
-- connections open and close by themselves. A call comes to a value, to a failed assert, to an access
-- that has no meaning, or to a read behind the last of the bytes that are there, as of a string that has
-- no zero among them (Base/Outcome). The build is one without NDEBUG. The resolve server is a record
-- in the same way; what boost::any holds in a connection stands in a map from connections, and what may
-- happen to the server is a relation on its states (Resolve/Service/Steps). The operating system's
-- sockets are a record of operations on the same world (Library/Udp).
--
-- Bounds and fuel. 32-bit numbers are natural numbers with `% 2 ^ 32` written out; an int that may be
-- negative is its 32-bit pattern. OnRead is on fuel, since its pointer may stand still or move back:
-- Message/Codec/Progress says when fuel is enough and when none is. A bus turn is on fuel too, since a
-- client may write to its bus while it is read: Server/Bus/Turn says how many rounds are enough. The codec
-- of protocol messages always moves on, so as many rounds as bytes and one more are enough for any bytes
-- (Protocol/Codec/Progress). Maps are association lists in the order of their keys. The count of idle
-- rounds of the chat room does not wrap. The loops of the test client and of a member of the chat room
-- that wait for messages take a look at the bus for each element of a list, or are on fuel.
--
-- Not modelled: logging, the texts that say how a program is used, and Address::ToString, which only
-- print; the wait of the test client for a character. The three setters of Server are declared and
-- defined nowhere. Memory is allocated without fail.
pub mod Base
pub mod Alpha
pub mod Boost
pub mod Address
pub mod Message
pub mod Queue
pub mod Node
pub mod Protocol
pub mod Client
pub mod Library
pub mod Chat
pub mod Resolve
pub mod Server
pub mod Delivery
pub mod Programs
pub mod Tests
