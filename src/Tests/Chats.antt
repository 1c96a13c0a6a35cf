-- ===== src/Tests/Chats.antt =====
-- A message from one client to another, and a client that keeps trying to connect.
use Prim.Native.String.{compare}
use text.Mathlib.Text.{is_lt}
use scalability_engineering.Prelude.{
  ◌≡◌, refl, Bool, true, ◌&&◌, Option, none, some, [], ◌∷◌, String, str_eq, str_eq_iff, Returns,
  pos, arith, if◌then◌else◌, List,
}
use scalability_engineering.Handlers.{Request}
use scalability_engineering.Client
use scalability_engineering.Client.{Client}
use scalability_engineering.Client.Chat.{
  Message, Contact, Tables, rcv_message, send_message_handler,
}
use scalability_engineering.Client.Chat.Table.{IsTable, Received, rcv_message-Received}
use scalability_engineering.Client.Chat.Posting.{Fate, arrives, is_lost, chat_world}
use scalability_engineering.Client.Chat.Delivery.{Delivery, send_message_handler-Delivery}
use scalability_engineering.Client.Control.{Attempt, ticks, shuts_down, auto_connect_worker}
use scalability_engineering.Client.Control.Lasting.{IsOrderly, Lasts, auto_connect_worker-Lasts}
use scalability_engineering.Client.Contacts.{comes_first, get_all_contact_messages}
use scalability_engineering.Client.Contacts.Overview.{Overview, get_all_contact_messages-Overview}
use scalability_engineering.Tests.Sorting.{sort_with, sort_with-Rearranges}
use scalability_engineering.Tests.Managers.{dora, manager-Good}

abbrev hello : Message
hello = record {
  message_id = "1";
  timestamp = "noon";
  status = "received";
  message = "Hello";
  sender_id = "d";
  receiver_id = "a";
}

abbrev empty_tables : Tables
empty_tables = record { contacts = []; messages = [] }

rcv_message-Received_example :
    Received true empty_tables hello (rcv_message true empty_tables hello)
rcv_message-Received_example = rcv_message-Received true empty_tables hello IsTable.no_rows

abbrev is_hello : Message → Bool
is_hello m =
    str_eq m.message_id "1"
    && str_eq m.timestamp "noon"
    && str_eq m.status "received"
    && str_eq m.message "Hello"
    && str_eq m.sender_id "d"
    && str_eq m.receiver_id "a"

-- An encoding of this one message.
abbrev encode : Message → Option String
encode m = if is_hello m then some "hello" else none

abbrev decode : String → Option Message
decode s = some hello

decode-encode : (m : Message) (json : String) → encode m ≡ some json → decode json ≡ some m
decode-encode m json e = ground (
  arith,
  str_eq_iff m.message_id "1",
  str_eq_iff m.timestamp "noon",
  str_eq_iff m.status "received",
  str_eq_iff m.message "Hello",
  str_eq_iff m.sender_id "d",
  str_eq_iff m.receiver_id "a",
)

abbrev greeting : Request
greeting = record {
  method = "POST";
  form = some (λ key. if str_eq key "contact" then "a" else "Hello");
  body = none;
}

-- Ann's client can be reached.
abbrev network : String → Fate
network url = if str_eq url "http://host_a:9090/chat/message" then arrives else is_lost

send_message_handler-Delivery_example :
    Returns
      (Delivery "1" "noon" encode decode "later" true true network dora empty_tables empty_tables
        greeting)
      (send_message_handler
        (chat_world "1" "noon" encode decode "later" true network)
        true
        dora
        empty_tables
        empty_tables
        greeting)
send_message_handler-Delivery_example =
    send_message_handler-Delivery "1" "noon" encode decode "later" true true network dora
      empty_tables empty_tables greeting manager-Good.valid.map IsTable.no_rows IsTable.no_rows refl
      decode-encode

abbrev refused : Attempt
refused = record { meanwhile = λ c. c; reply = Client.failed "refused"; now = λ n. pos 12 }

refused-IsOrderly : IsOrderly refused
refused-IsOrderly = record { in_order = λ c good. good; max_retries = λ c. refl }

auto_connect_worker-Lasts_example :
    Returns
      (Lasts dora.max_retries (ticks refused ∷ shuts_down ∷ []))
      (auto_connect_worker (pos 10) dora refused (ticks refused ∷ shuts_down ∷ []))
auto_connect_worker-Lasts_example =
    auto_connect_worker-Lasts (pos 10) dora refused (ticks refused ∷ shuts_down ∷ []) manager-Good
      refl (omega arith) refused-IsOrderly (refused-IsOrderly, tt)

-- What Dora's client shows with one message of a contact stored.
abbrev zoe : Contact
zoe = record { container_id = "z"; name = "Zoe"; hostname = "host_z" }

abbrev her_tables : Tables
her_tables = record {
  contacts = zoe ∷ [];
  messages = record hello { sender_id = "z"; receiver_id = "d" } ∷ [];
}

first_message : List Message → Option Message
first_message [] = none
first_message (m ∷ ms) = some m

get_all_contact_messages-Overview_example : Returns (Overview true true dora her_tables) (
    get_all_contact_messages first_message
      (sort_with (λ a b. is_lt (compare a.contact.name b.contact.name)))
      (sort_with comes_first)
      true
      true
      dora
      her_tables)
get_all_contact_messages-Overview_example =
    get_all_contact_messages-Overview first_message
      (sort_with (λ a b. is_lt (compare a.contact.name b.contact.name))) (sort_with comes_first)
      true true dora her_tables
      (sort_with-Rearranges (λ a b. is_lt (compare a.contact.name b.contact.name)))
      (sort_with-Rearranges comes_first) manager-Good (λ id. ground arith)
