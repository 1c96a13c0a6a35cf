-- ===== src/Client/Control/Lasting.antt =====
-- What the auto-connect worker of client/main.go comes to.
use scalability_engineering.Prelude.{
  str_eq, Allows, allows, Allows-if, Allows-bind, Allows-after, Returns-and, ℕ, suc, ◌≡◌, refl, ◌∙◌,
  Run, ok, panic, ◌>>=◌, Returns-map, ◌<ℤ◌, Bool, true, false, not, ◌||◌, ◌&&◌, List, [], ◌∷◌,
  Returns, returns, Returns-bind, Returns-if, if◌then◌else◌, ℤ, pos, ltb_ℤ, leb_ℤ, arith,
}
use scalability_engineering.ClientManager
use scalability_engineering.ClientManager.{ClientIdentity}
use scalability_engineering.Client.{
  Client, Reply, failed, answered, undecodable, decoded, try_auto_connect, add_new_contacts,
  connect, connection_failed,
}
use scalability_engineering.Client.Exchange.{InOrder, try_auto_connect-Tried}
use scalability_engineering.Client.Control.{
  Attempt, Turn, ticks, shuts_down, Ending, not_started, still_waits, at_limit, shut_down,
  auto_connect_loop, auto_connect_worker,
}

-- What else happens to a client keeps it in order, with its retry limit.
pub record IsOrderly (a : Attempt) : Type 0 where
  pub in_order : (c : Client) → InOrder c → InOrder (a.meanwhile c)
  pub max_retries : (c : Client) → (a.meanwhile c).max_retries ≡ c.max_retries

abbrev pub has_shutdown : List Turn → Bool
has_shutdown [] = false
has_shutdown (ticks a ∷ turns) = has_shutdown turns
has_shutdown (shuts_down ∷ turns) = true

abbrev pub AreOrderly : List Turn → Type 0
AreOrderly [] = Unit
AreOrderly (ticks a ∷ turns) = IsOrderly a × AreOrderly turns
AreOrderly (shuts_down ∷ turns) = AreOrderly turns

-- Why the worker stands as it does: it has ended at a positive limit that is reached, or by one of the
-- shutdowns, or it waits and there was none.
abbrev pub Reason : ℤ → List Turn → ℕ → Ending → Type 0
Reason limit turns n not_started = ⊥
Reason limit turns n still_waits = has_shutdown turns ≡ false
Reason limit turns n at_limit = (ltb_ℤ (pos 0) limit && leb_ℤ limit (pos n)) ≡ true
Reason limit turns n shut_down = has_shutdown turns ≡ true

-- The client is in order, and the count of retries has not passed a positive limit.
pub record Lasts (limit : ℤ) (turns : List Turn) (r : Client × ℕ × Ending) : Type 0 where
  pub in_order : InOrder r.0
  pub limit_kept : r.0.max_retries ≡ limit
  pub bounded : (ltb_ℤ (pos 0) limit && ltb_ℤ limit (pos r.1)) ≡ false
  pub reason : Reason limit turns r.1 r.2

add_new_contacts-limit :
    (c : Client) (contacts : List ClientIdentity) (now : ℕ → ℤ)
    → Allows (λ r. r.0.max_retries ≡ c.max_retries) (add_new_contacts c contacts now)
unfolding add_new_contacts
add_new_contacts-limit c [] now = allows refl
add_new_contacts-limit c (contact ∷ contacts) now =
    Allows-if
      (not (ClientManager.contains_client c.manager contact.container_id)
        && not (str_eq contact.container_id c.identity.container_id))
      (λ _. Allows-after (ClientManager.add_client c.manager c.queries contact (now 0)) λ r.
        Allows-bind
          (add_new_contacts-limit (record c { manager = r.0; queries = r.1 }) contacts
            (λ n. now (suc n)))
          λ s e. allows e)
      (λ _. add_new_contacts-limit c contacts now)

connect-limit :
    (c : Client) (reply : Reply (List ClientIdentity)) (now : ℕ → ℤ)
    → Allows (λ r. r.0.max_retries ≡ c.max_retries) (connect c reply now)
unfolding connect connection_failed
connect-limit c (failed e) now = allows refl
connect-limit c (answered status body) now = allows refl
connect-limit c (undecodable e) now = allows refl
connect-limit c (decoded identities) now =
    Allows-bind (add_new_contacts-limit c identities now) λ r e. allows e

-- The limit stays, a client that is connected stays so, and when it is time to stop it is not.
Steady : Client → Client × ℕ × Bool → Type 0
Steady c r =
    (r.0.max_retries ≡ c.max_retries)
    × ((c.connected && not r.0.connected) ≡ false)
    × ((not r.2 && r.0.connected) ≡ false)

try_auto_connect-Steady :
    (c : Client) (n : ℕ) (reply : Reply (List ClientIdentity)) (now : ℕ → ℤ)
    → Allows (Steady c) (try_auto_connect c n reply now)
unfolding try_auto_connect Steady
try_auto_connect-Steady c n reply now =
    Allows-if c.connected (λ e. allows (refl, ground arith, ground arith))
      λ e.
        Allows-if (ltb_ℤ (pos 0) c.max_retries && leb_ℤ c.max_retries (pos n))
          (λ _. allows (refl, ground arith, ground arith))
          λ _. Allows-bind (connect-limit c reply now) λ r l. allows (l, ground arith, ground arith)

still_few :
    (limit lim : ℤ) (n m : ℕ) (was now goes : Bool)
    → lim ≡ limit
    → m ≡ (if now then 0 else if goes then suc n else n)
    → goes ≡ (was || not (ltb_ℤ (pos 0) lim && leb_ℤ lim (pos n)))
    → (was && not now) ≡ false
    → (ltb_ℤ (pos 0) limit && ltb_ℤ limit (pos n)) ≡ false
    → (ltb_ℤ (pos 0) limit && ltb_ℤ limit (pos m)) ≡ false
still_few limit lim n m was now goes e counted continues steady few = ground arith

enough :
    (limit lim : ℤ) (n m : ℕ) (was now goes : Bool)
    → lim ≡ limit
    → m ≡ (if now then 0 else if goes then suc n else n)
    → goes ≡ (was || not (ltb_ℤ (pos 0) lim && leb_ℤ lim (pos n)))
    → (not goes && now) ≡ false
    → goes ≡ false
    → (ltb_ℤ (pos 0) limit && leb_ℤ limit (pos m)) ≡ true
enough limit lim n m was now goes e counted continues steady off = ground arith

-- One attempt, and what comes after it if the worker goes on.
attempt-Lasts :
    (limit : ℤ) (c : Client) (n : ℕ) (a : Attempt) (turns : List Turn)
    (rest : Client × ℕ × Bool → Run (Client × ℕ × Ending))
    → InOrder c
    → c.max_retries ≡ limit
    → (ltb_ℤ (pos 0) limit && ltb_ℤ limit (pos n)) ≡ false
    → IsOrderly a
    → ((r : Client × ℕ × Bool)
        → InOrder r.0
        → r.0.max_retries ≡ limit
        → (ltb_ℤ (pos 0) limit && ltb_ℤ limit (pos r.1)) ≡ false
        → Returns (Lasts limit turns) (rest r))
    → Returns (Lasts limit turns) (
        try_auto_connect (a.meanwhile c) n a.reply a.now
        >>= (λ r. if r.2 then rest r else ok (r.0, r.1, at_limit)))
unfolding Steady
attempt-Lasts limit c n a turns rest good e few o continue =
    let d : Client = a.meanwhile c in
    let same : d.max_retries ≡ limit = o.max_retries c ∙ e in
    Returns-bind
      (Returns-and (try_auto_connect-Tried d n a.reply a.now (o.in_order c good))
        (try_auto_connect-Steady d n a.reply a.now))
      λ r (t, s).
        let few' : (ltb_ℤ (pos 0) limit && ltb_ℤ limit (pos r.1)) ≡ false =
          still_few limit d.max_retries n r.1 d.connected r.0.connected r.2 same t.counted
            t.continues s.1 few in
        Returns-if r.2 (λ _. continue r t.in_order (s.0 ∙ same) few')
          (λ off. returns (record {
            in_order = t.in_order;
            limit_kept = s.0 ∙ same;
            bounded = few';
            reason =
                enough limit d.max_retries n r.1 d.connected r.0.connected r.2 same t.counted
                  t.continues s.2 off;
          }))

auto_connect_loop-Lasts :
    (limit : ℤ) (c : Client) (n : ℕ) (turns : List Turn)
    → InOrder c
    → c.max_retries ≡ limit
    → (ltb_ℤ (pos 0) limit && ltb_ℤ limit (pos n)) ≡ false
    → AreOrderly turns
    → Returns (Lasts limit turns) (auto_connect_loop c n turns)
unfolding auto_connect_loop
auto_connect_loop-Lasts limit c n [] good e few orderly =
    returns (record { in_order = good; limit_kept = e; bounded = few; reason = refl })
auto_connect_loop-Lasts limit c n (shuts_down ∷ turns) good e few orderly =
    returns (record { in_order = good; limit_kept = e; bounded = few; reason = refl })
auto_connect_loop-Lasts limit c n (ticks a ∷ turns) good e few orderly =
    attempt-Lasts limit c n a (ticks a ∷ turns) (λ r. auto_connect_loop r.0 r.1 turns) good e few
      orderly.0
      λ r g m f. Returns-map (auto_connect_loop-Lasts limit r.0 r.1 turns g m f orderly.1) λ s l.
        record {
          in_order = l.in_order;
          limit_kept = l.limit_kept;
          bounded = l.bounded;
          reason = ticked s.1 s.2 l.reason;
        }
  where
    ticked : (k : ℕ) (d : Ending) → Reason limit turns k d → Reason limit (ticks a ∷ turns) k d
    ticked k not_started x = x
    ticked k still_waits x = x
    ticked k at_limit x = x
    ticked k shut_down x = x

-- From a client in order that is to connect by itself, with a positive retry interval, the
-- auto-connect worker runs without a panic for any number of turns, whatever the bootstrap server
-- answers, if what happens to the client between them keeps it in order with its retry limit. The
-- client is in order after it, and the count of retries has not passed a positive limit. The worker
-- has ended only at a positive limit that is reached or at a shutdown, and does not wait after one.
pub auto_connect_worker-Lasts :
    (retry_interval : ℤ) (c : Client) (a : Attempt) (turns : List Turn)
    → InOrder c
    → c.auto_connect ≡ true
    → pos 0 <ℤ retry_interval
    → IsOrderly a
    → AreOrderly turns
    → Returns (Lasts c.max_retries turns) (auto_connect_worker retry_interval c a turns)
unfolding auto_connect_worker
auto_connect_worker-Lasts retry_interval c a turns good e positive o orderly =
    Returns-if (not c.auto_connect) (λ h. absurd (ground arith))
      λ _.
        attempt-Lasts c.max_retries c 0 a turns
          (λ r. if ltb_ℤ (pos 0) retry_interval then auto_connect_loop r.0 r.1 turns else panic)
          good refl (ground arith) o
          λ r g m f.
            Returns-if (ltb_ℤ (pos 0) retry_interval)
              (λ _. auto_connect_loop-Lasts c.max_retries r.0 r.1 turns g m f orderly)
              (λ h. absurd (ground arith))
