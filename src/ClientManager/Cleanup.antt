-- ===== src/ClientManager/Cleanup.antt =====
-- A tick of cleanupWorker.
use scalability_engineering.Prelude.{
  ℕ, zero, suc, ◌≡◌, refl, ap, ◌∙◌, true, false, Option, none, some, ok, String, string_discrete,
  ◌-ℤ◌, arith, ite, Option-cases, inl, inr, Returns, returns, Returns-map, Returns-inv, length, ◌<◌,
  ℤ, ◌≤ℤ◌, ◌<ℤ◌, leb_ℤ, if◌then◌else◌, Bool-cases,
}
use scalability_engineering.PriorityQueue
use scalability_engineering.PriorityQueue.{PriorityQueue}
use scalability_engineering.PriorityQueue.Extract
use scalability_engineering.ClientManager.{ClientManager, call, cleanup_loop, cleanup, microseconds}
use scalability_engineering.ClientManager.Invariant.{queued, IsValid, setup_of, Keeps}

-- The queue without what is older than `cutoff`.
abbrev pub recent : ℤ → Option ℤ → Option ℤ
recent cutoff none = none
recent cutoff (some p) = if leb_ℤ cutoff p then some p else none

module _ {W : Type 0} where
  -- Clients whose time is before `cutoff` leave the queue, one by one, and the remove callback is
  -- called for each, with its time, before the next one leaves.
  pub data Drops (cutoff : ℤ) : ClientManager W → W → ClientManager W → W → Type 0 where
    stop : {cm : ClientManager W} {w : W} → Drops cutoff cm w cm w
    drop :
        {cm cm' cm'' : ClientManager W} {w w' w'' : W} (id : String) (p : ℤ)
        → queued cm id ≡ some p
        → p <ℤ cutoff
        → ((j : String) → queued cm' j ≡ ite (string_discrete id j) none (queued cm j))
        → call cm.remove_callback id p w ≡ ok w'
        → Drops cutoff cm' w' cm'' w''
        → Drops cutoff cm w cm'' w''

  module _ (J : W → Type 0) (cutoff : ℤ) where
    pub record Cleaned (cm : ClientManager W) (w : W) (r : ClientManager W × W) : Type 0 where
      pub valid : IsValid r.0
      pub hash_map : r.0.hash_map ≡ cm.hash_map
      pub queued_after : (j : String) → queued r.0 j ≡ recent cutoff (queued cm j)
      pub called : Drops cutoff cm w r.0 r.1
      pub kept : J r.1
      pub setup : setup_of r.0 ≡ setup_of cm

    recent_all :
        (cm : ClientManager W) (p : ℤ)
        → cutoff ≤ℤ p
        → ((j : String) (r : ℤ) → queued cm j ≡ some r → p ≤ℤ r)
        → (j : String) → queued cm j ≡ recent cutoff (queued cm j)
    recent_all cm p h least j = elim (Option-cases (queued cm j)) [
      | inl e ↦ rw e refl
      | inr (r, e) ↦ let k : leb_ℤ cutoff r ≡ true = ground (arith, least j r e) in rw (e, k) refl
    ]

    recent_drop :
        (id : String) (p : ℤ) (f g : String → Option ℤ)
        → f id ≡ some p
        → p <ℤ cutoff
        → ((j : String) → g j ≡ ite (string_discrete id j) none (f j))
        → (j : String) → recent cutoff (g j) ≡ recent cutoff (f j)
    recent_drop id p f g e h after j = elim (string_discrete id j) [
      | yes k ↦
          let a : f j ≡ some p = ground arith in
          let b : g j ≡ none = ground (arith, after j) in
          let c : leb_ℤ cutoff p ≡ false = ground arith in rw (a, b, c) refl
      | no k ↦ let b : g j ≡ f j = ground (arith, after j) in ap (recent cutoff) b
    ]

    Loops : ℕ → Type 0
    Loops fuel =
        (cm : ClientManager W) (w : W)
        → length cm.priority_queue.priorities < fuel
        → IsValid cm
        → Keeps J cm.remove_callback
        → J w
        → Returns (Cleaned cm w) (cleanup_loop fuel cm w cutoff)

    module _ (fuel : ℕ) (next : Loops fuel) (cm : ClientManager W) (w : W)
        (enough : length cm.priority_queue.priorities < suc fuel) (v : IsValid cm)
        (keeps : Keeps J cm.remove_callback) (j : J w) where
      abbrev queue : PriorityQueue String
      queue = cm.priority_queue

      loop_drop :
          (p : ℤ) (id : String)
          → PriorityQueue.peek queue ≡ ok (some (p, id))
          → PriorityQueue.Extract.IsMin string_discrete queue p id
          → leb_ℤ cutoff p ≡ false
          → Returns (Cleaned cm w) (cleanup_loop (suc fuel) cm w cutoff)
      unfolding cleanup_loop Loops
      loop_drop p id e m old =
          let (q', p', id', x, m', d) =
            PriorityQueue.Extract.extract_min-some string_discrete queue v.queue
              (PriorityQueue.Extract.view_nonempty string_discrete queue v.queue id p m.held) in
          let before : p' <ℤ cutoff = ground (arith, m'.least id p m.held) in
          let (w', ew, jw) = Returns-inv (keeps id' p' w j) in
          let cm' : ClientManager W = record cm { priority_queue = q' } in
          let v' : IsValid cm' = record { map = v.map; queue = d.valid } in
          rw (e, old, x, ew)
            (Returns-map (next cm' w' (omega (arith, d.sized)) v' keeps jw) λ r c. record {
              valid = c.valid;
              hash_map = c.hash_map;
              queued_after = λ i.
                  c.queued_after i
                  ∙ recent_drop id' p' (queued cm) (queued cm') m'.held before d.after i;
              called = drop id' p' m'.held before d.after ew c.called;
              kept = c.kept;
              setup = c.setup;
            })

      loop_stop :
          (head : Option (ℤ × String))
          → PriorityQueue.peek queue ≡ ok head
          → elim head [ none ↦ true | some (p, _) ↦ leb_ℤ cutoff p ] ≡ true
          → ((i : String) → queued cm i ≡ recent cutoff (queued cm i))
          → Returns (Cleaned cm w) (cleanup_loop (suc fuel) cm w cutoff)
      unfolding cleanup_loop
      loop_stop head e h same =
          let stops : cleanup_loop (suc fuel) cm w cutoff ≡ ok (cm, w) = ground arith in
          rw stops (
            returns (record {
              valid = v;
              hash_map = refl;
              queued_after = same;
              called = stop;
              kept = j;
              setup = refl;
            }))

      loop-Cleaned :
          ((head : Option (ℤ × String)) × (PriorityQueue.peek queue ≡ ok head)
            × PriorityQueue.Extract.Peeked string_discrete queue v.queue head)
          → Returns (Cleaned cm w) (cleanup_loop (suc fuel) cm w cutoff)
      unfolding PriorityQueue.size
      loop-Cleaned (none, e, m) = loop_stop none e refl λ i. elim (Option-cases (queued cm i)) [
        | inl f ↦ rw f refl
        | inr (p, f) ↦ absurd (
            omega
              (arith, m, PriorityQueue.Extract.view_nonempty string_discrete queue v.queue i p f))
      ]
      loop-Cleaned (some (p, id), e, m) = elim (Bool-cases (leb_ℤ cutoff p)) [
        | inl young ↦ loop_stop (some (p, id)) e young (recent_all cm p (ground arith) m.least)
        | inr old ↦ loop_drop p id e m old
      ]

    cleanup_loop-Cleaned : (fuel : ℕ) → Loops fuel
    unfolding Loops cleanup_loop
    cleanup_loop-Cleaned zero cm w enough v keeps j = absurd (omega arith)
    cleanup_loop-Cleaned (suc fuel) cm w enough v keeps j =
        loop-Cleaned fuel (cleanup_loop-Cleaned fuel) cm w enough v keeps j (
          Returns-inv (PriorityQueue.Extract.peek-Peeked string_discrete cm.priority_queue v.queue))

  -- A tick of the cleanup worker at `now` ends, without a panic, on a valid manager, if the remove
  -- callback returns: of the queue, just what is not older than max_age stays, and the callback has
  -- been called for each client that left.
  pub cleanup-Cleaned :
      (J : W → Type 0) (cm : ClientManager W) (w : W) (now : ℤ)
      → IsValid cm
      → Keeps J cm.remove_callback
      → J w
      → Returns (Cleaned J (now -ℤ microseconds cm.config.max_age) cm w) (cleanup cm w now)
  unfolding cleanup Loops PriorityQueue.size
  cleanup-Cleaned J cm w now v keeps j =
      cleanup_loop-Cleaned J (now -ℤ microseconds cm.config.max_age)
        (suc (PriorityQueue.size cm.priority_queue)) cm w (omega arith) v keeps j
