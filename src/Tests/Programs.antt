-- ===== src/Tests/Programs.antt =====
-- The programs, and a member of the chat room, over buses that give first what was written first.
use cpmd.Base.{
  leb, length, replicate, if◌then◌else◌, ℕ, ◌≡◌, refl, sym, inl, true, none, some, Option, List, [],
  ◌∷◌, ◌++◌, map, append-nil, replicate, arith,
}
use cpmd.Base.Outcome.{ok, invalid, Safe}
use cpmd.Address.{Address}
use cpmd.Address.Create.{create-total}
use cpmd.Message.{Message, serialize, data_slice, set_data, set_remote_address}
use cpmd.Programs.{exit_success}
use cpmd.Programs.TestClient.{Settings, queen, rounds_of, talk}
use cpmd.Programs.TestClient.Answers.{still}
use cpmd.Programs.TestClient.Sending.{talk-exit_success}
use cpmd.Programs.Daemon.{Platform, start, main}
use cpmd.Programs.Daemon.Starting.{IsNoFailure, main-IsNoFailure}
use cpmd.Server.Start.{Flags}
use cpmd.Server.Events.{init_command}
use cpmd.Chat.{message, builder, chat_bytes, heard_at}
use cpmd.Chat.Room.{reply_message}
use cpmd.Chat.Member.{Member, ready, saying, say, hear, print}
use cpmd.Chat.Member.Print.{line, NamesNobody, say-print}
use cpmd.Chat.Member.Listen.{hear-invalid}
use cpmd.Delivery.{sent_by}
use cpmd.Tests.Net.{hello}
use cpmd.Tests.Hosts.{host}
use cpmd.Tests.Deliveries.{fifo, lies, fifo-IsQueue, talker}

abbrev name : List ℕ
name = b'c' ∷ []

abbrev twice : Settings
twice = record { register_server_port = 8123; name = name; target = name; message_num = 2 }

abbrev target : Address
target = (create-total name).0

abbrev answers : List Message
answers = map (sent_by 7 5) (replicate 2 (queen hello target))

-- cpmd brings both answers at once.
abbrev bring : fifo.Bus → fifo.Bus
bring b = b ++ map serialize answers

talk-exit_success_example :
    talk ((bring ∷ []) ++ replicate 2 still) hello twice talker ≡ ok (some exit_success)
unfolding replicate rounds_of
talk-exit_success_example =
    talk-exit_success lies fifo-IsQueue (bring ∷ []) 2 1 7 5 hello twice talker target [] []
      (create-total name).1 (omega arith) (omega arith) refl (omega arith) refl refl refl
      (refl, (refl, tt)) (answers, [], sym (append-nil answers), λ b. refl, refl) (omega arith)
      (omega arith)

-- The message comes although nothing was sent, and then the bus stays as it is.
abbrev comes : List ((List (List ℕ)) → List (List ℕ))
comes = (λ b. serialize (queen hello target) ∷ []) ∷ still ∷ []

-- Every signal is trapped but SIGPIPE.
abbrev platform : Platform
platform = record {
  trap_signal = λ w signo. ((signo ∷ []) ∷ w, true);
  daemon = λ w. w;
  sigpipe = 13;
  sigint = 2;
  sigquit = 3;
  sigterm = 15;
}

abbrev flags : Flags
flags = record {
  register_server_port = 8123;
  message_server_ip = host;
  message_server_port = 8123;
  resolve_server_ip = host;
  resolve_server_port = 9999;
}

main-IsNoFailure_example :
    Safe IsNoFailure (main platform true flags (init_command (1 ∷ []) [] ∷ []) [])
    × ((start platform true flags []).1 ≡ none
        → main platform true flags (init_command (1 ∷ []) [] ∷ []) [] ≡ ok (some exit_success))
main-IsNoFailure_example = main-IsNoFailure platform true flags (init_command (1 ∷ []) [] ∷ []) []

abbrev member : Member
member = record { client = talker; chat = builder; m = hello }

abbrev words : List ℕ
words = b'h' ∷ b'o' ∷ 10 ∷ []

abbrev said : Message
said = (set_data hello (chat_bytes (saying name words builder))).0

say-print_example :
    (t : Member) × (say name (ready true (some words)) member ≡ ok (t, true))
    × (t.m ≡ said)
    × (t.client.output ≡ some (serialize said ∷ []))
    × NamesNobody t.chat
    × ((memory : Message) (a : Address)
        → print (
            heard_at (
              data_slice
                (set_remote_address (reply_message memory message (heard_at (data_slice said))) a)))
          ≡ line name words ∷ [])
say-print_example = say-print name words member [] refl refl refl

-- Slice::as gives an object where there are bytes enough for it.
abbrev as_whole : ℕ → List ℕ → Option (List ℕ)
as_whole n bytes = if leb n (length bytes) then some bytes else none

abbrev same_later : Message → Message
same_later m = m

abbrev hearer : Member
hearer = record member { client = record talker { input = some (serialize said ∷ []) } }

-- A member whose bus holds two bytes.
abbrev deaf : Member
deaf = record member { client = record talker { input = some ((1 ∷ 2 ∷ []) ∷ []) } }

hear-invalid_example : hear as_whole same_later 4 deaf ≡ invalid
hear-invalid_example =
    hear-invalid as_whole same_later 3 deaf ((1 ∷ 2 ∷ []) ∷ []) (1 ∷ 2 ∷ []) refl refl
      (inl (omega arith))
