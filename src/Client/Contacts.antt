-- ===== src/Client/Contacts.antt =====
-- The list of contacts of the chat: GetContactsWithLastMessage of client/db.go, and
-- GetAllContactMessages and GetContactsWithNames of client/main.go.
pub mod Complete
pub mod Overview
use Prim.Native.String.{compare}
use text.Mathlib.Text.{is_lt}
use scalability_engineering.Prelude.{
  Bool, true, false, not, ◌||◌, Option, none, some, List, [], ◌∷◌, ◌++◌, String, str_eq, Run, ok,
  ◌>>=◌, if◌then◌else◌,
}
use scalability_engineering.ClientManager.{ClientIdentity}
use scalability_engineering.Client.{Client}
use scalability_engineering.Client.Chat.{
  Message, Contact, Tables, add_contact, get_contacts_from_queue,
}

pub record ContactWithLastMessage : Type 0 where
  pub contact : Contact
  pub last_message : Option Message

pub record ContactMessages : Type 0 where
  pub contact : String
  pub contact_name : String
  pub messages : List Message

-- The messages of `me` whose other side is `id`.
unfoldable pub messages_with : String → String → List Message → List Message
messages_with me id [] = []
messages_with me id (m ∷ ms) =
    let rest = messages_with me id ms in
    let contact_id = if str_eq m.sender_id me then m.receiver_id else m.sender_id in
    if str_eq m.sender_id me || str_eq m.receiver_id me
    then (if str_eq contact_id id then m ∷ rest else rest)
    else rest

-- The join; `newest` is the row that ROW_NUMBER puts first, `none` if there is no row.
unfoldable pub join_messages :
    (List Message → Option Message)
    → String
    → List Message
    → List Contact
    → List ContactWithLastMessage
unfolding messages_with
join_messages newest me ms [] = []
join_messages newest me ms (c ∷ cs) =
    record { contact = c; last_message = newest (messages_with me c.container_id ms) }
    ∷ join_messages newest me ms cs

-- `order` is the ORDER BY of the query.
unfoldable pub get_contacts_with_last_message :
    (List Message → Option Message)
    → (List ContactWithLastMessage → List ContactWithLastMessage)
    → Bool
    → Tables
    → String
    → Option (List ContactWithLastMessage)
unfolding join_messages
get_contacts_with_last_message newest order works db me =
    if not works then none else some (order (join_messages newest me db.messages db.contacts))

-- The first loop of GetAllContactMessages.
unfoldable pub db_contacts : List ContactWithLastMessage → List ContactMessages
db_contacts [] = []
db_contacts (row ∷ rows) =
    record {
      contact = row.contact.container_id;
      contact_name = row.contact.name;
      messages = elim row.last_message [ none ↦ [] | some m ↦ m ∷ [] ];
    }
    ∷ db_contacts rows

-- `contactMap`, which has the contacts of the first loop only.
unfoldable pub in_map : String → List ContactMessages → Bool
in_map id [] = false
in_map id (c ∷ cs) = str_eq c.contact id || in_map id cs

-- The second loop: what it appends, and the tables. An error of AddContact is only printed.
unfoldable pub queue_contacts :
    Bool → List ContactMessages → Tables → List ClientIdentity → Tables × List ContactMessages
unfolding in_map
queue_contacts works known db [] = (db, [])
queue_contacts works known db (c ∷ cs) =
    let contact : Contact = record {
      container_id = c.container_id;
      name = c.name;
      hostname = c.hostname;
    } in
    let listed : ContactMessages = record {
      contact = c.container_id;
      contact_name = c.name;
      messages = [];
    } in
    let seen = in_map c.container_id known in
    let db' : Tables = if seen then db else (add_contact works db contact).0 in
    let (db'', rest) = queue_contacts works known db' cs in
    (db'', if seen then rest else listed ∷ rest)

-- The test that is passed to sort.Slice. Each contact has at most one message here.
unfoldable pub comes_first : ContactMessages → ContactMessages → Bool
comes_first a b = elim a.messages [
  | [] ↦ elim b.messages [ [] ↦ is_lt (compare a.contact b.contact) | _ ∷ _ ↦ false ]
  | x ∷ _ ↦ elim b.messages [
    | [] ↦ true
    | y ∷ _ ↦
        if str_eq x.timestamp y.timestamp
        then is_lt (compare a.contact b.contact)
        else is_lt (compare y.timestamp x.timestamp)
  ]
]

-- `works` is for the query, `writes` for AddContact, and `sort` is sort.Slice with `comes_first`.
unfoldable pub get_all_contact_messages :
    (List Message → Option Message)
    → (List ContactWithLastMessage → List ContactWithLastMessage)
    → (List ContactMessages → List ContactMessages)
    → (works writes : Bool) → Client
    → Tables
    → Run (Option (Tables × List ContactMessages))
unfolding get_contacts_with_last_message db_contacts queue_contacts
get_all_contact_messages newest order sort works writes c db =
    elim (get_contacts_with_last_message newest order works db c.identity.container_id) [
      | none ↦ ok none
      | some rows ↦ do
        let known = db_contacts rows
        contacts ← get_contacts_from_queue c
        let added = queue_contacts writes known db contacts
        ok (some (added.0, sort (known ++ added.1)))
    ]

unfoldable pub names_with : List ClientIdentity → List (String × String)
names_with [] = []
names_with (c ∷ cs) = (c.container_id, c.name) ∷ names_with cs

unfoldable pub get_contacts_with_names : Client → Run (List (String × String))
unfolding names_with
get_contacts_with_names c = do contacts ← get_contacts_from_queue c; ok (names_with contacts)
