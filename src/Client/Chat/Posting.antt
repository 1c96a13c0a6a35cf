-- ===== src/Client/Chat/Posting.antt =====
-- What the chat of a client makes of a message that another one posts, and how a POST gets there.
use Prim.Native.String.{◌++◌ as concat}
use scalability_engineering.Prelude.{
  ℕ, ◌≤◌, ◌≡◌, Bool, true, false, not, ◌||◌, Option, none, some, String, str_eq, if◌then◌else◌,
  arith, if-either, ◌&&◌,
}
use scalability_engineering.Handlers.{Request}
use scalability_engineering.Client.Chat.{
  Message, Tables, ChatWorld, rcv_message, message_handler, valid_status,
}
use scalability_engineering.Client.Chat.Table.{IsTable, Received, rcv_message-Received}

-- A POST with this body.
abbrev pub posted : String → Request
posted body = record { method = "POST"; form = none; body = some body }

-- What a message handler turns down: a message without a sender, an ID or a text, or one that is not
-- stored, for an error or a status that is none of the three.
abbrev pub is_turned_down : Bool → Message → Bool
is_turned_down works msg =
    (str_eq msg.sender_id "" || str_eq msg.message_id "" || str_eq msg.message "")
    || not (works && valid_status msg.status)

-- What the receiver makes of it: it takes the message, or leaves its tables as they are.
pub data Taken (works : Bool) (db : Tables) (msg : Message) : Tables × ℕ → Type 0 where
  left :
      {status : ℕ}
      → 400 ≤ status
      → is_turned_down works msg ≡ true
      → Taken works db msg (db, status)
  taken : {db' : Tables} → Received works db msg (db', true) → Taken works db msg (db', 200)

answered :
    (works : Bool) (db : Tables) (msg : Message) (r : Tables × Bool)
    → Received works db msg r
    → Taken works db msg (r.0, if r.1 then 200 else 500)
answered works db msg r (Received.rejected e) = left (omega arith) (ground (arith, e))
answered works db msg r (Received.kept e t f g) = taken (Received.kept e t f g)

-- A request with a body that is a message with a time and a status is answered with 200 just when
-- the message is stored as it is; else nothing changes.
pub message_handler-Taken :
    (decode : String → Option Message) (now : String) (works : Bool) (db : Tables) (body : String)
    (msg : Message)
    → IsTable db.messages
    → decode body ≡ some msg
    → str_eq msg.timestamp "" ≡ false
    → str_eq msg.status "" ≡ false
    → Taken works db msg (message_handler decode now works db (posted body))
unfolding message_handler
message_handler-Taken decode now works db body msg t e p q =
    rw (e, p, q)
      (if-either (Taken works db msg)
        (str_eq msg.sender_id "" || str_eq msg.message_id "" || str_eq msg.message "")
        (λ h. left (omega arith) (ground (arith, h)))
        (λ _.
          answered works db msg (rcv_message works db msg) (rcv_message-Received works db msg t)))

-- What becomes of a POST at a URL: it does not get there, it does and the answer gets lost, or both
-- arrive.
pub data Fate : Type 0 where
  is_lost loses_answer arrives : Fate

-- The client at a URL: `works` and `now` are its own.
abbrev pub reaches :
    (String → Option Message) → String → Bool → Fate → Tables → String → Tables × Option ℕ
reaches decode now works fate db body =
    let (db', status) = message_handler decode now works db (posted body) in
    elim fate [ is_lost ↦ (db, none) | loses_answer ↦ (db', none) | arrives ↦ (db', some status) ]

-- The world of a client from which a POST reaches the message handler at its URL, as the network has
-- it.
abbrev pub chat_world :
    (message_id timestamp : String)
    → (Message → Option String)
    → (String → Option Message)
    → (now : String) (works : Bool) → (String → Fate)
    → ChatWorld Tables
chat_world message_id timestamp marshal decode now works network = record {
  message_id = message_id;
  timestamp = timestamp;
  marshal = marshal;
  post = λ db url body. reaches decode now works (network url) db body;
}

-- Where the client on a host takes messages.
abbrev pub message_url : String → String
message_url host = concat "http://" (concat host ":9090/chat/message")
