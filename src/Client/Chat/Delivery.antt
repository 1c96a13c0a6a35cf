-- ===== src/Client/Chat/Delivery.antt =====
-- A message on its way from the chat of one client to that of another.
use scalability_engineering.Prelude.{
  ℕ, ◌≡◌, refl, Bool, true, false, not, ◌||◌, Option, none, some, String, string_discrete, str_eq,
  Returns, returns, Returns-if, if◌then◌else◌, ◌==◌, arith, if-either, option-split,
}
use scalability_engineering.HashMap
use scalability_engineering.HashMap.View.{get-view}
use scalability_engineering.ClientManager
use scalability_engineering.ClientManager.{ClientIdentity}
use scalability_engineering.Handlers.{Request}
use scalability_engineering.Client.{Client}
use scalability_engineering.Client.Chat.{
  Message, Tables, ChatWorld, rcv_message, message_handler, message_to, deliver, valid_status,
  send_message_handler,
}
use scalability_engineering.Client.Chat.Table.{IsTable, Received, rcv_message-Received}
use scalability_engineering.Client.Chat.Posting.{
  posted, is_turned_down, Taken, message_handler-Taken, Fate, is_lost, loses_answer, arrives,
  chat_world, message_url,
}

-- Why a request to send cannot be served: it has no form, no contact or no text, or the contact is
-- unknown or has no host.
pub data IsUnsendable (c : Client) (r : Request) : Type 0 where
  no_form : r.form ≡ none → IsUnsendable c r
  blank :
      (value : String → String)
      → r.form ≡ some value
      → (str_eq (value "contact") "" || str_eq (value "message") "") ≡ true
      → IsUnsendable c r
  unknown :
      (value : String → String)
      → r.form ≡ some value
      → HashMap.view string_discrete c.manager.hash_map (value "contact") ≡ none
      → IsUnsendable c r
  homeless :
      (value : String → String) (identity : ClientIdentity)
      → r.form ≡ some value
      → HashMap.view string_discrete c.manager.hash_map (value "contact") ≡ some identity
      → str_eq identity.hostname "" ≡ true
      → IsUnsendable c r

-- The request is to send `text` to the known client `target` on `host`.
pub data Addressed (c : Client) (r : Request) : String → String → String → Type 0 where
  addressed :
      (value : String → String) (identity : ClientIdentity)
      → r.form ≡ some value
      → HashMap.view string_discrete c.manager.hash_map (value "contact") ≡ some identity
      → Addressed c r (value "contact") (value "message") identity.hostname

module _ (message_id timestamp : String) (marshal : Message → Option String)
    (decode : String → Option Message) (now : String) (saves takes : Bool) (network : String → Fate)
    (c : Client) (here there : Tables) (r : Request) where
  abbrev world : ChatWorld Tables
  world = chat_world message_id timestamp marshal decode now takes network

  -- The message that goes out, and the copy that is kept.
  abbrev sent_to : String → String → Message
  sent_to target text = message_to world c "received" target text

  abbrev kept_of : String → String → Message
  kept_of target text = message_to world c "sent" target text

  -- How an attempt to send ends, with the tables of both clients.
  pub data Delivery : Tables × Tables × ℕ → Type 0 where
    unsendable : IsUnsendable c r → Delivery (here, there, 400)
    unencoded :
        {target text host : String}
        → Addressed c r target text host
        → marshal (sent_to target text) ≡ none
        → Delivery (here, there, 500)
    lost :
        {target text host : String}
        → Addressed c r target text host
        → network (message_url host) ≡ is_lost
        → Delivery (here, there, 502)
    turned_down :
        {target text host : String}
        → Addressed c r target text host
        → is_turned_down takes (sent_to target text) ≡ true
        → Delivery (here, there, 502)
    -- the receiver has it, and the sender does not know
    unacknowledged :
        {target text host : String} {there' : Tables}
        → Addressed c r target text host
        → network (message_url host) ≡ loses_answer
        → Received takes there (sent_to target text) (there', true)
        → Delivery (here, there', 502)
    -- the receiver has it, the sender has no copy
    unsaved :
        {target text host : String} {there' : Tables}
        → Addressed c r target text host
        → network (message_url host) ≡ arrives
        → Received takes there (sent_to target text) (there', true)
        → saves ≡ false
        → Delivery (here, there', 500)
    -- both have it
    delivered :
        {target text host : String} {here' there' : Tables}
        → Addressed c r target text host
        → network (message_url host) ≡ arrives
        → Received takes there (sent_to target text) (there', true)
        → Received saves here (kept_of target text) (here', true)
        → Delivery (here', there', 200)

  module _ {target text host : String} (to : Addressed c r target text host) where
    saved :
        (there' : Tables) (s : Tables × Bool)
        → network (message_url host) ≡ arrives
        → Received takes there (sent_to target text) (there', true)
        → Received saves here (kept_of target text) s
        → Delivery (if s.1 then (s.0, there', 200) else (s.0, there', 500))
    unfolding valid_status message_to
    saved there' s n got (Received.rejected e) = unsaved to n got (ground (arith, e))
    saved there' s n got (Received.kept e t f g) = delivered to n got (Received.kept e t f g)

    -- The end of the handler, by what the receiver made of the message and the fate of the POST.
    replied :
        (a : Tables × ℕ) (s : Tables × Bool) (fate : Fate)
        → network (message_url host) ≡ fate
        → Taken takes there (sent_to target text) a
        → Received saves here (kept_of target text) s
        → Delivery (
            let (there', reply) = elim fate as (λ _. Tables × Option ℕ) [
              | is_lost ↦ (there, none)
              | loses_answer ↦ (a.0, none)
              | arrives ↦ (a.0, some a.1)
            ] in
            elim reply [
              | none ↦ (here, there', 502)
              | some status ↦
                  if not (status == 200)
                  then (here, there', 502)
                  else if s.1
                  then (s.0, there', 200)
                  else (s.0, there', 500)
            ])
    replied a s is_lost n t k = lost to n
    replied a s loses_answer n (Taken.left low why) k = turned_down to why
    replied a s loses_answer n (Taken.taken got) k = unacknowledged to n got
    replied a s arrives n (Taken.left {status} low why) k =
        let t : (status == 200) ≡ false = ground arith in rw (t) (turned_down to why)
    replied a s arrives n (Taken.taken got) k = saved _ s n got k

    deliver-Delivery :
        (json : String)
        → IsTable here.messages
        → IsTable there.messages
        → str_eq timestamp "" ≡ false
        → decode json ≡ some (sent_to target text)
        → Delivery (deliver world saves c here there target host text json)
    unfolding deliver message_to
    deliver-Delivery json s t p e =
        replied (message_handler decode now takes there (posted json))
          (rcv_message saves here (kept_of target text)) (network (message_url host)) refl
          (message_handler-Taken decode now takes there json (sent_to target text) t e p refl)
          (rcv_message-Received saves here (kept_of target text) s)

  -- A client whose map is valid sends a message to a contact, whose message handler its POST reaches
  -- by the URL of the contact's host as the network has it. If the time is not empty and an encoded
  -- message decodes to itself, then the handler ends without a panic, and: a request without a form, a
  -- known contact with a host, or a text is answered with 400; a message that cannot be encoded with
  -- 500, one that gets lost or is turned down with 502, and nobody stores it; if only the answer gets
  -- lost, the receiver stores it, with the status "received", and it is 502; if both arrive, the
  -- receiver stores it and so does the sender, with the status "sent", and it is 200, or the sender's
  -- tables fail, and it is 500.
  pub send_message_handler-Delivery :
      HashMap.IsValid string_discrete c.manager.hash_map
      → IsTable here.messages
      → IsTable there.messages
      → str_eq timestamp "" ≡ false
      → ((m : Message) (json : String) → marshal m ≡ some json → decode json ≡ some m)
      → Returns Delivery (send_message_handler world saves c here there r)
  unfolding send_message_handler ClientManager.get_client
  send_message_handler-Delivery valid s t p back =
      option-split (Returns Delivery) r.form (λ f. returns (unsendable (IsUnsendable.no_form f)))
        λ value f.
          Returns-if (str_eq (value "contact") "" || str_eq (value "message") "")
            (λ b. returns (unsendable (IsUnsendable.blank value f b)))
            λ _. rw (get-view string_discrete c.manager.hash_map valid (value "contact")) (
              returns (
                option-split Delivery
                  (HashMap.view string_discrete c.manager.hash_map (value "contact"))
                  (λ v. unsendable (IsUnsendable.unknown value f v))
                  λ identity v.
                    if-either Delivery (str_eq identity.hostname "")
                      (λ h. unsendable (IsUnsendable.homeless value identity f v h))
                      λ _.
                        option-split Delivery
                          (marshal (sent_to (value "contact") (value "message")))
                          (λ m. unencoded (addressed value identity f v) m)
                          λ json m.
                            deliver-Delivery (addressed value identity f v) json s t p
                              (back _ json m)))
