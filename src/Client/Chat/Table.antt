-- ===== src/Client/Chat/Table.antt =====
-- The table Message of client/db.go: a finite map from IDs to messages.
use scalability_engineering.Prelude.{
  ◌≡◌, refl, Bool, true, false, ◌&&◌, Option, none, some, List, [], ◌∷◌, ◌++◌, String,
  string_discrete, str_eq, str_eq_iff, arith, ite, Bool-cases, inl, inr,
}
use scalability_engineering.Client.Chat.{Message, Tables, valid_status, without, rcv_message}

-- The message with an ID.
abbrev pub stored : String → List Message → Option Message
stored id [] = none
stored id (m ∷ ms) = ite (string_discrete m.message_id id) (some m) (stored id ms)

-- No ID is there twice, and each status is one of the three.
pub data IsTable : List Message → Type 0 where
  no_rows : IsTable []
  row :
      {m : Message} {ms : List Message}
      → stored m.message_id ms ≡ none
      → valid_status m.status ≡ true
      → IsTable ms
      → IsTable (m ∷ ms)

stored-without :
    (id j : String) (ms : List Message)
    → stored j (without id ms) ≡ ite (string_discrete id j) none (stored j ms)
unfolding without
stored-without id j [] = ground arith
stored-without id j (m ∷ ms) = ground (arith, stored-without id j ms, str_eq_iff m.message_id id)

stored-concat :
    (j : String) (ms : List Message) (m : Message)
    → stored m.message_id ms ≡ none
    → stored j (ms ++ m ∷ []) ≡ ite (string_discrete m.message_id j) (some m) (stored j ms)
stored-concat j [] m h = refl
stored-concat j (x ∷ ms) m h = ground (arith, stored-concat j ms m)

without-IsTable : (id : String) (ms : List Message) → IsTable ms → IsTable (without id ms)
unfolding without
without-IsTable id [] t = no_rows
without-IsTable id (m ∷ ms) (row new valid t) = elim (Bool-cases (str_eq m.message_id id)) [
  | inl e ↦ rw (e, without) (without-IsTable id ms t)
  | inr e ↦
      rw (e, without)
        (row (ground (arith, stored-without id m.message_id ms)) valid (without-IsTable id ms t))
]

concat-IsTable :
    (ms : List Message) (m : Message)
    → stored m.message_id ms ≡ none
    → valid_status m.status ≡ true
    → IsTable ms
    → IsTable (ms ++ m ∷ [])
concat-IsTable [] m h v t = row refl v no_rows
concat-IsTable (x ∷ ms) m h v (row new valid t) =
    row (ground (arith, stored-concat x.message_id ms m)) valid
      (concat-IsTable ms m (ground arith) v t)

-- The tables after an attempt to store a message, and whether there was no error.
pub data Received (works : Bool) (db : Tables) (msg : Message) : Tables × Bool → Type 0 where
  rejected : (works && valid_status msg.status) ≡ false → Received works db msg (db, false)
  kept :
      {db' : Tables}
      → (works && valid_status msg.status) ≡ true
      → IsTable db'.messages
      → ((j : String)
          → stored j db'.messages
            ≡ ite (string_discrete msg.message_id j) (some msg) (stored j db.messages))
      → db'.contacts ≡ db.contacts
      → Received works db msg (db', true)

-- RcvMessage returns an error and changes nothing exactly if SQLite fails or the status is not one
-- of the three. Otherwise the message is stored at its ID, in place of what stood there, all other
-- messages and the contacts stay, and no ID is there twice, if none was before.
pub rcv_message-Received :
    (works : Bool) (db : Tables) (msg : Message)
    → IsTable db.messages
    → Received works db msg (rcv_message works db msg)
unfolding rcv_message
rcv_message-Received false db msg t = rejected refl
rcv_message-Received true db msg t = elim (Bool-cases (valid_status msg.status)) [
  | inl e ↦
      rw (e, rcv_message)
        (kept e
          (concat-IsTable (without msg.message_id db.messages) msg (gone msg.message_id) e
            (without-IsTable msg.message_id db.messages t))
          (λ j. after j) refl)
  | inr e ↦ rw (e, rcv_message) (rejected e)
]
  where
    gone : (id : String) → stored id (without id db.messages) ≡ none
    gone id = ground (arith, stored-without id id db.messages)

    after :
        (j : String)
        → stored j (without msg.message_id db.messages ++ msg ∷ [])
          ≡ ite (string_discrete msg.message_id j) (some msg) (stored j db.messages)
    after j = ground (
      arith,
      stored-concat j (without msg.message_id db.messages) msg (gone msg.message_id),
      stored-without msg.message_id j db.messages,
    )
