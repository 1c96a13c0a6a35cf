-- ===== src/Client/Chat.antt =====
-- The chat of client/main.go and its tables of client/db.go. A table is the list of its rows. `works`
-- says whether SQLite can open the file and write to it, and `order` is the ORDER BY of a query.
use Prim.Native.String.{◌++◌ as concat}
pub mod Posting
pub mod Delivery
pub mod Table
use scalability_engineering.Prelude.{
  ℕ, Bool, true, false, not, ◌&&◌, ◌||◌, Option, none, some, List, [], ◌∷◌, ◌++◌, map, String,
  string_discrete, str_eq, Run, ok, ◌>>=◌, if◌then◌else◌, ◌==◌,
}
use scalability_engineering.PriorityQueue
use scalability_engineering.ClientManager
use scalability_engineering.ClientManager.{ClientIdentity, identities}
use scalability_engineering.Handlers.{Request}
use scalability_engineering.Client.{Client}

pub record Message : Type 0 where
  pub message_id : String
  pub timestamp : String
  pub status : String
  pub message : String
  pub sender_id : String
  pub receiver_id : String

pub record Contact : Type 0 where
  pub container_id : String
  pub name : String
  pub hostname : String

pub record Tables : Type 0 where
  pub contacts : List Contact
  pub messages : List Message

-- The CHECK of the table Message.
unfoldable pub valid_status : String → Bool
valid_status s = str_eq s "sent" || str_eq s "delivered" || str_eq s "received"

unfoldable pub without : String → List Message → List Message
without id [] = []
without id (m ∷ ms) = let rest = without id ms in if str_eq m.message_id id then rest else m ∷ rest

unfoldable pub has_contact : String → List Contact → Bool
has_contact id [] = false
has_contact id (c ∷ cs) = str_eq c.container_id id || has_contact id cs

-- INSERT OR IGNORE
unfoldable pub add_contact : Bool → Tables → Contact → Tables × Bool
unfolding has_contact
add_contact works db contact =
    if not works
    then (db, false)
    else if has_contact contact.container_id db.contacts
    then (db, true)
    else (record db { contacts = db.contacts ++ contact ∷ [] }, true)

-- INSERT OR REPLACE: the row with the same primary key goes. The flag says that no error is returned.
unfoldable pub rcv_message : Bool → Tables → Message → Tables × Bool
unfolding valid_status without
rcv_message works db msg =
    if not works
    then (db, false)
    else if not (valid_status msg.status)
    then (db, false)
    else (record db { messages = without msg.message_id db.messages ++ msg ∷ [] }, true)

-- The WHERE of GetChatWithContact.
unfoldable pub between : String → String → List Message → List Message
between me other [] = []
between me other (m ∷ ms) =
    let rest = between me other ms in
    if (str_eq m.sender_id me && str_eq m.receiver_id other)
      || (str_eq m.sender_id other && str_eq m.receiver_id me)
    then m ∷ rest
    else rest

unfoldable pub get_chat_with_contact :
    (List Message → List Message) → Bool → Tables → String → String → Option (List Message)
unfolding between
get_chat_with_contact order works db me other =
    if not works then none else some (order (between me other db.messages))

-- `decode` is the JSON decoder, and `now` the current time as a text.
unfoldable pub message_handler :
    (String → Option Message) → String → Bool → Tables → Request → Tables × ℕ
unfolding rcv_message
message_handler decode now works db r =
    let receive : Message → Tables × ℕ = λ msg.
      let timestamp = if str_eq msg.timestamp "" then now else msg.timestamp in
      let status = if str_eq msg.status "" then "received" else msg.status in
      let (db', stored) =
        rcv_message works db (record msg { timestamp = timestamp; status = status }) in
      (db', if stored then 200 else 500) in
    if str_eq r.method "OPTIONS"
    then (db, 200)
    else if not (str_eq r.method "POST")
    then (db, 405)
    else elim r.body [
      | none ↦ (db, 400)
      | some body ↦ elim (decode body) [
        | none ↦ (db, 400)
        | some msg ↦
            if str_eq msg.sender_id "" || str_eq msg.message_id "" || str_eq msg.message ""
            then (db, 400)
            else receive msg
      ]
    ]

-- What sendMessageHandler takes from outside: an ID and the time, the JSON encoder, and a POST, which
-- may change what is at the other side, and ends with a status or an error.
pub record ChatWorld (R : Type 0) : Type 0 where
  pub message_id : String
  pub timestamp : String
  pub marshal : Message → Option String
  pub post : R → String → String → R × Option ℕ

-- The message that is sent, and the copy that is kept, which differ in their status.
unfoldable pub message_to : {R : Type 0} → ChatWorld R → Client → String → String → String → Message
message_to E c status target text = record {
  message_id = E.message_id;
  timestamp = E.timestamp;
  status = status;
  message = text;
  sender_id = c.identity.container_id;
  receiver_id = target;
}

module _ {R : Type 0} (E : ChatWorld R) (works : Bool) where
  -- The end of the handler, from the POST on.
  unfoldable pub deliver : Client → Tables → R → String → String → String → String → Tables × R × ℕ
  unfolding message_to rcv_message
  deliver c db remote target hostname text json =
      let (remote', reply) =
        E.post remote (concat "http://" (concat hostname ":9090/chat/message")) json in
      let (db', saved) = rcv_message works db (message_to E c "sent" target text) in
      elim reply [
        | none ↦ (db, remote', 502)
        | some status ↦
            if not (status == 200)
            then (db, remote', 502)
            else if saved
            then (db', remote', 200)
            else (db', remote', 500)
      ]

  unfoldable pub send_message_handler : Client → Tables → R → Request → Run (Tables × R × ℕ)
  unfolding deliver
  send_message_handler c db remote r =
      let send : String → String → String → Tables × R × ℕ = λ target hostname text.
        elim (E.marshal (message_to E c "received" target text)) [
          | none ↦ (db, remote, 500)
          | some json ↦ deliver c db remote target hostname text json
        ] in
      let address : (String → String) → Run (Tables × R × ℕ) = λ value. do
        target ← ClientManager.get_client c.manager (value "contact")
        ok (elim target [
          | none ↦ (db, remote, 400)
          | some t ↦
              if str_eq t.hostname ""
              then (db, remote, 400)
              else send (value "contact") t.hostname (value "message")
        ])
      in elim r.form [
        | none ↦ ok (db, remote, 400)
        | some value ↦
            if str_eq (value "contact") "" || str_eq (value "message") ""
            then ok (db, remote, 400)
            else address value
      ]

unfoldable pub get_contact_name : Client → String → Run String
get_contact_name c id = do
  client ← ClientManager.get_client c.manager id
  ok (elim client [ none ↦ id | some identity ↦ identity.name ])

unfoldable pub get_contacts_from_queue : Client → Run (List ClientIdentity)
get_contacts_from_queue c =
    identities c.manager.hash_map (PriorityQueue.to_slices c.queries.query_queue).1

-- The status, and what is shown: the messages, none on an error, and the name of the contact.
unfoldable pub chat_history_handler :
    (List Message → List Message)
    → Bool
    → Client
    → Tables
    → Request
    → Run (ℕ × List Message × String)
unfolding get_chat_with_contact get_contact_name
chat_history_handler order works c db r = elim r.form [
  | none ↦ ok (400, [], "")
  | some value ↦
      let contact = value "selected_contact" in
      let chat = get_chat_with_contact order works db c.identity.container_id contact in
      if str_eq contact "" then ok (400, [], "") else do
        name ← get_contact_name c contact
        ok (200, elim chat [ none ↦ [] | some messages ↦ messages ], name)
]
