-- ===== src/Client/Contacts/Complete.antt =====
-- Whom the list of contacts of client/main.go shows.
use scalability_engineering.Prelude.{
  ℕ, suc, ◌≡◌, refl, Bool, not, ◌&&◌, Option, List, [], ◌∷◌, String, str_eq, str_eq_iff, arith, leb,
  if◌then◌else◌,
}
use scalability_engineering.Prelude.Counting.{count, count-concat}
use scalability_engineering.ClientManager.{ClientIdentity}
use scalability_engineering.Client.Chat.{Message, Contact, Tables, has_contact, add_contact}
use scalability_engineering.Client.Contacts.{
  ContactWithLastMessage, ContactMessages, join_messages, db_contacts, in_map, queue_contacts,
}

abbrev pub stored : String → List Contact → ℕ
stored id = count (λ c. str_eq c.container_id id)

abbrev pub listed : String → List ContactMessages → ℕ
listed id = count (λ c. str_eq c.contact id)

abbrev joined : String → List ContactWithLastMessage → ℕ
joined id = count (λ row. str_eq row.contact.container_id id)

abbrev pub given : String → List ClientIdentity → ℕ
given id = count (λ c. str_eq c.container_id id)

pub has_contact_iff : (id : String) (cs : List Contact) → has_contact id cs ≡ leb 1 (stored id cs)
unfolding has_contact
has_contact_iff id [] = refl
has_contact_iff id (c ∷ cs) = ground (arith, has_contact_iff id cs)

pub in_map_iff : (id : String) (cs : List ContactMessages) → in_map id cs ≡ leb 1 (listed id cs)
unfolding in_map
in_map_iff id [] = refl
in_map_iff id (c ∷ cs) = ground (arith, in_map_iff id cs)

pub joined-join_messages :
    (newest : List Message → Option Message) (me : String) (ms : List Message) (id : String)
    (cs : List Contact)
    → joined id (join_messages newest me ms cs) ≡ stored id cs
unfolding join_messages
joined-join_messages newest me ms id [] = refl
joined-join_messages newest me ms id (c ∷ cs) =
    ground (arith, joined-join_messages newest me ms id cs)

pub listed-db_contacts :
    (id : String) (rows : List ContactWithLastMessage)
    → listed id (db_contacts rows) ≡ joined id rows
unfolding db_contacts
listed-db_contacts id [] = refl
listed-db_contacts id (row ∷ rows) = ground (arith, listed-db_contacts id rows)

pub stored-add_contact :
    (works : Bool) (db : Tables) (c : Contact) (id : String)
    → stored id (add_contact works db c).0.contacts ≡ (
        if works && str_eq c.container_id id && not (has_contact id db.contacts)
        then suc (stored id db.contacts)
        else stored id db.contacts)
unfolding add_contact
stored-add_contact works db c id = ground (
  arith,
  str_eq_iff c.container_id id,
  count-concat (λ k. str_eq k.container_id id) db.contacts (c ∷ []),
)

abbrev pub as_contact : ClientIdentity → Contact
as_contact c = record { container_id = c.container_id; name = c.name; hostname = c.hostname }

-- The tables after one round of the second loop.
abbrev pub next_tables : Bool → List ContactMessages → Tables → ClientIdentity → Tables
next_tables works known db c =
    if in_map c.container_id known then db else (add_contact works db (as_contact c)).0

-- What the second loop appends: the contacts of the queue that are not in the map.
pub listed-queue_contacts :
    (works : Bool) (known : List ContactMessages) (id : String) (db : Tables)
    (cs : List ClientIdentity)
    → listed id (queue_contacts works known db cs).1 ≡ (if in_map id known then 0 else given id cs)
unfolding queue_contacts
listed-queue_contacts works known id db [] = ground arith
listed-queue_contacts works known id db (c ∷ cs) = ground (
  arith,
  str_eq_iff c.container_id id,
  listed-queue_contacts works known id (next_tables works known db c) cs,
)

-- What the second loop stores: the same, if AddContact works, but no contact twice.
pub stored-queue_contacts :
    (works : Bool) (known : List ContactMessages) (id : String) (db : Tables)
    (cs : List ClientIdentity)
    → stored id (queue_contacts works known db cs).0.contacts ≡ (
        if works && not (in_map id known) && leb 1 (given id cs) && not (has_contact id db.contacts)
        then suc (stored id db.contacts)
        else stored id db.contacts)
unfolding queue_contacts
stored-queue_contacts works known id db [] = ground arith
stored-queue_contacts works known id db (c ∷ cs) = ground (
  arith,
  str_eq_iff c.container_id id,
  has_contact_iff id db.contacts,
  has_contact_iff id (next_tables works known db c).contacts,
  stored-add_contact works db (as_contact c) id,
  stored-queue_contacts works known id (next_tables works known db c) cs,
)

pub messages-queue_contacts :
    (works : Bool) (known : List ContactMessages) (db : Tables) (cs : List ClientIdentity)
    → (queue_contacts works known db cs).0.messages ≡ db.messages
unfolding queue_contacts add_contact
messages-queue_contacts works known db [] = refl
messages-queue_contacts works known db (c ∷ cs) =
    ground (arith, messages-queue_contacts works known (next_tables works known db c) cs)
