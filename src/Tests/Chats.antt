-- ===== src/Tests/Chats.antt =====
-- The chat room and the start of cpmd, on Tests/Hosts.
use cpmd.Base.{ℕ, ◌≡◌, refl, some, List, [], ◌∷◌}
use cpmd.Base.Map
use cpmd.Base.Bytes.{bytes_key}
use cpmd.Base.Outcome.{ok}
use cpmd.Address.{Address}
use cpmd.Message.{Message, serialize}
use cpmd.Chat.{Heard, private_message}
use cpmd.Chat.Room.{Members, Room, goes_on, broadcast_message, reply_message, answer}
use cpmd.Chat.Room.Broadcast.{others, offers, addressed, broadcast_message-offers}
use cpmd.Chat.Room.Private.{nowhere, answer-nowhere}
use cpmd.Library.{ClientImpl}
use cpmd.Tests.Hosts.{hosts}
use cpmd.Tests.Net.{hello}

abbrev ann : List ℕ
ann = b'a' ∷ b'n' ∷ b'n' ∷ []

abbrev bob : List ℕ
bob = b'b' ∷ b'o' ∷ b'b' ∷ []

abbrev at_5 : Address
at_5 = record { node_addr = 0; client_addr = 5 }

abbrev at_6 : Address
at_6 = record { node_addr = 0; client_addr = 6 }

abbrev members : Members
members = (ann, at_5) ∷ (bob, at_6) ∷ []

abbrev chatroom : ClientImpl
chatroom = record {
  name = bob;
  options = record { port = 8123; buffer_size = 4096 };
  input = some [];
  output = some [];
}

broadcast_message-offers_example :
    (n : Message) × (broadcast_message members chatroom at_5 hello
      ≡ ok (
        record chatroom { output = some (offers (addressed hello) (others members at_5) []).0 },
        n,
        (offers (addressed hello) (others members at_5) []).1,
      ))
broadcast_message-offers_example = broadcast_message-offers members chatroom at_5 hello [] refl

abbrev room : Room
room = record { client = chatroom; members = members; idle = 0 }

-- "ann" says "ann" to "bob".
abbrev whisper : Heard
whisper = record { kind = 4; member = ann; to_member = bob; said = ann }

bob-member : Map.find bob members ≡ some at_6
unfolding Map.find
bob-member = refl

answer-nowhere_example :
    ((reply_message hello private_message whisper).to ≡ nowhere)
    × (answer hello room at_5 whisper
        ≡ ok (
            goes_on (record room {
              client = record chatroom {
                output = some (serialize (reply_message hello private_message whisper) ∷ []);
              };
            })))
answer-nowhere_example = answer-nowhere hello room at_5 whisper at_6 [] refl bob-member refl
