-- ===== src/ClientManager/Health.antt =====
-- A health check: the verdict on a client, and what follows from it.
use scalability_engineering.Prelude.{
  ◌≡◌, refl, ap, Bool, true, false, Option, none, some, ok, ◌||◌, String, str_eq, string_discrete,
  ◌-ℤ◌, arith, ite, Option-cases, inl, inr, Returns, returns, Returns-bind, Returns-inv, ◌≢◌, ℤ,
  ltb_ℤ, if◌then◌else◌, Bool-cases,
}
use scalability_engineering.HashMap
use scalability_engineering.HashMap.View
use scalability_engineering.PriorityQueue
use scalability_engineering.PriorityQueue.{PriorityQueue}
use scalability_engineering.PriorityQueue.Update
use scalability_engineering.PriorityQueue.Extract
use scalability_engineering.PriorityQueue.Remove
use scalability_engineering.ClientManager.{
  ClientIdentity, ClientManager, call, alive_check, is_alive, check_client, microseconds,
}
use scalability_engineering.ClientManager.Register.{Unregistered}
use scalability_engineering.ClientManager.Invariant.{
  clients, queued, IsValid, setup_of, Keeps, Dequeued, is_some, remove_from_queue-Dequeued,
}

pub data Verdict : Type 0 where
  expired fresh answering silent : Verdict

-- The client is known, has a hostname, and answers.
abbrev pub answers : (String → Bool) → Option ClientIdentity → Bool
answers ping none = false
answers ping (some c) = if str_eq c.hostname "" then false else ping c.hostname

abbrev pub by_answer : Bool → Verdict
by_answer true = answering
by_answer false = silent

module _ {W : Type 0} where
  -- By the age of the entry in the queue, and for an age from min_age to max_age, or for a client
  -- that is not queued, by the answer.
  abbrev pub by_age : (String → Bool) → ClientManager W → String → ℤ → Option ℤ → Verdict
  by_age ping cm id now none = by_answer (answers ping (clients cm id))
  by_age ping cm id now (some p) =
      if ltb_ℤ (microseconds cm.config.max_age) (now -ℤ p)
      then expired
      else if ltb_ℤ (now -ℤ p) (microseconds cm.config.min_age)
      then fresh
      else by_answer (answers ping (clients cm id))

  unfoldable pub verdict : (String → Bool) → ClientManager W → String → ℤ → Verdict
  verdict ping cm id now = by_age ping cm id now (queued cm id)

  verdict-none :
      (ping : String → Bool) (cm : ClientManager W) (id : String) (now : ℤ)
      → queued cm id ≡ none
      → verdict ping cm id now ≡ by_answer (answers ping (clients cm id))
  unfolding verdict
  verdict-none ping cm id now e = ap (by_age ping cm id now) e

  verdict-some :
      (ping : String → Bool) (cm : ClientManager W) (id : String) (now p : ℤ)
      → queued cm id ≡ some p
      → verdict ping cm id now ≡ (
          if ltb_ℤ (microseconds cm.config.max_age) (now -ℤ p)
          then expired
          else if ltb_ℤ (now -ℤ p) (microseconds cm.config.min_age)
          then fresh
          else by_answer (answers ping (clients cm id)))
  unfolding verdict
  verdict-some ping cm id now p e = ap (by_age ping cm id now) e

  -- Only a known client answers.
  by_age-answering :
      (ping : String → Bool) (cm : ClientManager W) (id : String) (now : ℤ) (p : Option ℤ)
      → by_age ping cm id now p ≡ answering
      → clients cm id ≢ none
  by_age-answering ping cm id now none e f = absurd (ground (arith, ap (answers ping) f))
  by_age-answering ping cm id now (some p) e f = absurd (ground (arith, ap (answers ping) f))

  pub verdict-answering :
      (ping : String → Bool) (cm : ClientManager W) (id : String) (now : ℤ)
      → verdict ping cm id now ≡ answering
      → clients cm id ≢ none
  unfolding verdict
  verdict-answering ping cm id now = by_age-answering ping cm id now (queued cm id)

  pub is_alive-answers :
      (ping : String → Bool) (cm : ClientManager W) (id : String)
      → IsValid cm
      → is_alive ping cm id ≡ ok (answers ping (clients cm id))
  unfolding is_alive
  is_alive-answers ping cm id v =
      rw (HashMap.View.get-view string_discrete cm.hash_map v.map id)
        (elim (Option-cases (clients cm id)) [ inl e ↦ ground arith | inr (c, e) ↦ ground arith ])

  module _ (J : W → Type 0) where
    -- The client was alive at `later`; the add callback has been called with that time.
    pub record Refreshed (cm : ClientManager W) (w : W) (id : String) (later : ℤ)
        (r : ClientManager W × W) : Type 0 where
      pub valid : IsValid r.0
      pub hash_map : r.0.hash_map ≡ cm.hash_map
      pub queued_after :
          (j : String) → queued r.0 j ≡ ite (string_discrete id j) (some later) (queued cm j)
      pub called : call cm.add_callback id later w ≡ ok r.1
      pub kept : J r.1
      pub setup : setup_of r.0 ≡ setup_of cm

    -- What a check does, by its verdict: an expired client leaves the queue, but stays known; a
    -- fresh one is not looked at; one that answers is refreshed; one that does not is forgotten.
    abbrev pub Checked : ClientManager W → W → String → ℤ → Verdict → ClientManager W × W → Type 0
    Checked cm w id later expired r = Dequeued J cm w id (r.0, r.1, is_some (queued cm id))
    Checked cm w id later fresh r = r ≡ (cm, w)
    Checked cm w id later answering r = Refreshed cm w id later r
    Checked cm w id later silent r =
        Unregistered J cm w id (r.0, r.1, is_some (clients cm id) || is_some (queued cm id))

    module _ (ping : String → Bool) (cm : ClientManager W) (w : W) (id : String) (v : IsValid cm)
        (adds : Keeps J cm.add_callback) (removes : Keeps J cm.remove_callback) (j : J w) where
      alive_check-Checked :
          (later : ℤ)
          → Returns
              (Checked cm w id later (by_answer (answers ping (clients cm id))))
              (alive_check ping cm w id later)
      unfolding alive_check
      alive_check-Checked later =
          rw (is_alive-answers ping cm id v) (elim (Bool-cases (answers ping (clients cm id))) [
            | inl e ↦ rw e (
                Returns-bind
                  (PriorityQueue.Update.insert-Inserted string_discrete cm.priority_queue v.queue
                    later id)
                  λ (q, added) i.
                    let (w', ew, jw) = Returns-inv (adds id later w j) in
                    rw ew (
                      returns (record {
                        valid = record { map = v.map; queue = i.valid };
                        hash_map = refl;
                        queued_after = i.after;
                        called = ew;
                        kept = jw;
                        setup = refl;
                      })))
            | inr e ↦ rw e (
                Returns-bind (remove_from_queue-Dequeued J cm w id v removes j)
                  λ (cm', w', removed) d.
                    Returns-bind
                      (HashMap.View.remove-Removed string_discrete cm'.hash_map d.valid.map id)
                      λ (h, existed) s. returns (record {
                        valid = record { map = s.valid; queue = d.valid.queue };
                        clients_after = λ i. ground (arith, d.hash_map, s.after i);
                        queued_after = d.queued_after;
                        called = d.called;
                        answer = refl;
                        kept = d.kept;
                        setup = d.setup;
                      }))
          ])

      -- A health check of a client at `now`, answered at `later`, on a valid manager whose callbacks
      -- return, ends without a panic and does what its verdict asks for.
      pub check_client-Checked :
          (now later : ℤ)
          → Returns
              (Checked cm w id later (verdict ping cm id now))
              (check_client ping cm w id now later)
      unfolding check_client
      check_client-Checked now later = elim (Option-cases (queued cm id)) [
        | inl e ↦
            let f =
              PriorityQueue.Extract.contains-view string_discrete cm.priority_queue v.queue id in
            let g : PriorityQueue.contains string_discrete cm.priority_queue id ≡ false =
              ground arith in
            rw (g, verdict-none ping cm id now e) (alive_check-Checked later)
        | inr (p, e) ↦
            let f =
              PriorityQueue.Extract.contains-view string_discrete cm.priority_queue v.queue id in
            let g : PriorityQueue.contains string_discrete cm.priority_queue id ≡ true =
              ground arith in
            rw
              (
                g,
                PriorityQueue.Extract.get_priority-view string_discrete cm.priority_queue v.queue
                    id,
                e,
                verdict-some ping cm id now p e,
              )
              (elim (Bool-cases (ltb_ℤ (microseconds cm.config.max_age) (now -ℤ p))) [
                | inl old ↦ rw old (
                    Returns-bind
                      (PriorityQueue.Remove.remove-Taken string_discrete cm.priority_queue id
                        v.queue)
                      λ (q, removed) d.
                        let f : removed ≡ true = ground (arith, d.found) in
                        let (w', ew, jw) = Returns-inv (removes id p w j) in
                        rw (f, ew)
                          (returns (record {
                            valid = record { map = v.map; queue = d.valid };
                            hash_map = refl;
                            queued_after = d.after;
                            called = rw e ew;
                            answer = refl;
                            kept = jw;
                            setup = refl;
                          })))
                | inr kept ↦
                    rw kept (elim (Bool-cases (ltb_ℤ (now -ℤ p) (microseconds cm.config.min_age))) [
                      | inl young ↦ rw young (returns refl)
                      | inr unsure ↦ rw unsure (alive_check-Checked later)
                    ])
              ])
      ]
