-- ===== src/Client/Contacts/Overview.antt =====
-- GetAllContactMessages of client/main.go: each contact stands in the list once.
use scalability_engineering.Prelude.{
  ℕ, zero, suc, ◌≡◌, ◌≢◌, refl, ap, ◌≤◌, Bool, true, false, ◌||◌, ◌&&◌, Option, none, some, List,
  [], ◌∷◌, ◌++◌, String, string_discrete, str_eq, str_eq_iff, get_elem?, arith, if◌then◌else◌,
  Option-cases, inl, inr, Returns, returns, Returns-bind, get_elem?-some, get_elem?-lt,
}
use scalability_engineering.Prelude.Counting.{count, count-concat, Rearranges}
use scalability_engineering.Prelude.GoMap.{lookup}
use scalability_engineering.Index.{Distinct}
use scalability_engineering.Index.Count.{search_place}
use scalability_engineering.HashMap.View.{get-view}
use scalability_engineering.PriorityQueue
use scalability_engineering.ClientManager.{ClientManager, identities}
use scalability_engineering.ClientManager.Invariant.{clients, is_some, IsValid, IsCoherent}
use scalability_engineering.Client.{Client}
use scalability_engineering.Client.Exchange.{InOrder}
use scalability_engineering.Client.Chat.{Message, Tables, has_contact, get_contacts_from_queue}
use scalability_engineering.Client.Contacts.{
  ContactWithLastMessage, ContactMessages, db_contacts, join_messages, queue_contacts,
  get_all_contact_messages, get_contacts_with_last_message,
}
use scalability_engineering.Client.Contacts.Complete.{
  stored, listed, given, has_contact_iff, in_map_iff, joined-join_messages, listed-db_contacts,
  listed-queue_contacts, stored-queue_contacts, messages-queue_contacts,
}

abbrev times : String → List String → ℕ
times id = count (λ k. str_eq k id)

times_absent :
    (id : String) (keys : List String) → ((i : ℕ) → get_elem? keys i ≢ some id) → times id keys ≡ 0
times_absent id [] out = refl
times_absent id (k ∷ keys) out =
    ground (arith, str_eq_iff k id, out 0, times_absent id keys (λ i. out (suc i)))

times_once :
    (id : String) (keys : List String) (i : ℕ)
    → Distinct keys
    → get_elem? keys i ≡ some id
    → times id keys ≡ 1
times_once id [] i once e = cc
times_once id (k ∷ keys) zero once e = ground (
  arith,
  str_eq_iff k id,
  times_absent id keys (λ i f. absurd (ground (arith, once 0 (suc i) id e f))),
)
times_once id (k ∷ keys) (suc i) once e =
    let other : k ≢ id = λ p. absurd (ground (arith, once 0 (suc i) id (ap some p) e)) in
    ground (
      arith,
      str_eq_iff k id,
      times_once id keys i (λ a b j p q. ground (arith, once (suc a) (suc b) j p q)) e,
    )

times-values :
    (q : PriorityQueue.PriorityQueue String) (id : String)
    → PriorityQueue.IsTable string_discrete q
    → times id q.values ≡ (if is_some (PriorityQueue.view string_discrete q id) then 1 else 0)
times-values q id t = elim (search_place string_discrete id q.values) [
  | inl (i, e) ↦
      let (p, f) =
        get_elem?-some q.priorities i (omega (arith, t.paired, get_elem?-lt q.values i id e)) in
      ground (
        arith,
        t.index.found id i e,
        times_once id q.values i
            (λ a b j c d. ground (arith, t.index.found j a c, t.index.found j b d)) e,
      )
  | inr out ↦ elim (Option-cases (lookup string_discrete id q.index_map)) [
    | inl e ↦ ground (arith, times_absent id q.values out)
    | inr (i, e) ↦ absurd (out i (t.index.inside id i e))
  ]
]

-- What a lookup of each identifier gives: the known ones, each as often as it is asked for.
identities-Counted :
    {W : Type 0} (cm : ClientManager W)
    → IsValid cm
    → IsCoherent cm
    → (ids : List String)
    → Returns
        (λ cs. (id : String) → given id cs ≡ (if is_some (clients cm id) then times id ids else 0))
        (identities cm.hash_map ids)
unfolding identities
identities-Counted cm v c [] = returns (λ id. ground arith)
identities-Counted cm v c (k ∷ ids) = elim (Option-cases (clients cm k)) [
  | inl e ↦
      rw (get-view string_discrete cm.hash_map v.map k, e)
        (Returns-bind (identities-Counted cm v c ids)
          λ cs n. returns (λ id. ground (arith, str_eq_iff k id, n id)))
  | inr (a, e) ↦
      rw (get-view string_discrete cm.hash_map v.map k, e)
        (Returns-bind (identities-Counted cm v c ids)
          λ cs n. returns (λ id. ground (arith, str_eq_iff k id, c.named k a e, n id)))
]

-- A client whom a query may be sent to: it is in the query queue, and known.
abbrev pub is_queryable : Client → String → Bool
is_queryable c id =
    is_some (PriorityQueue.view string_discrete c.queries.query_queue id)
    && is_some (clients c.manager id)

abbrev once_if : Bool → ℕ
once_if b = if b then 1 else 0

-- What is shown, or an error. Nothing is stored or shown twice.
pub data Overview (works writes : Bool) (c : Client) (db : Tables)
    : Option (Tables × List ContactMessages) → Type 0 where
  failed : works ≡ false → Overview works writes c db none
  shown :
      {db' : Tables} {contacts : List ContactMessages}
      → works ≡ true
      → ((id : String)
          → listed id contacts ≡ once_if (has_contact id db.contacts || is_queryable c id))
      → ((id : String)
          → stored id db'.contacts
            ≡ once_if (has_contact id db.contacts || (writes && is_queryable c id)))
      → db'.messages ≡ db.messages
      → Overview works writes c db (some (db', contacts))

-- On a client in order, whose table has no contact twice, GetAllContactMessages ends without a panic.
-- It fails if the query fails. Else each contact that was stored or can be queried stands in the list
-- once, and nobody else does. If AddContact works, the tables hold just these contacts, else those
-- from before; none is there twice, and the messages stay.
pub get_all_contact_messages-Overview :
    (newest : List Message → Option Message)
    (order : List ContactWithLastMessage → List ContactWithLastMessage)
    (sort : List ContactMessages → List ContactMessages) (works writes : Bool) (c : Client)
    (db : Tables)
    → Rearranges order
    → Rearranges sort
    → InOrder c
    → ((id : String) → stored id db.contacts ≤ 1)
    → Returns
        (Overview works writes c db)
        (get_all_contact_messages newest order sort works writes c db)
unfolding get_all_contact_messages get_contacts_with_last_message get_contacts_from_queue
    PriorityQueue.to_slices
get_all_contact_messages-Overview newest order sort false writes c db o s good key =
    returns (failed refl)
get_all_contact_messages-Overview newest order sort true writes c db o s good key =
    Returns-bind
      (identities-Counted c.manager good.valid good.coherent c.queries.query_queue.values)
      λ cs n.
        let rows = order (join_messages newest c.identity.container_id db.messages db.contacts) in
        let known = db_contacts rows in
        let there : (id : String) → listed id known ≡ stored id db.contacts = λ id. ground (
          arith,
          listed-db_contacts id rows,
          o (λ row. str_eq row.contact.container_id id)
              (join_messages newest c.identity.container_id db.messages db.contacts),
          joined-join_messages newest c.identity.container_id db.messages id db.contacts,
        ) in
        let queried : (id : String) → given id cs ≡ once_if (is_queryable c id) =
          λ id. ground (arith, n id, times-values c.queries.query_queue id good.kept.table) in
        let added = queue_contacts writes known db cs in
        returns (
          shown refl
            (λ id. ground (
              arith,
              s (λ m. str_eq m.contact id) (known ++ added.1),
              count-concat (λ m. str_eq m.contact id) known added.1,
              there id,
              queried id,
              key id,
              has_contact_iff id db.contacts,
              in_map_iff id known,
              listed-queue_contacts writes known id db cs,
            ))
            (λ id. ground (
              arith,
              there id,
              queried id,
              key id,
              has_contact_iff id db.contacts,
              in_map_iff id known,
              stored-queue_contacts writes known id db cs,
            ))
            (messages-queue_contacts writes known db cs))
