-- ===== src/Benchmark/Ring.antt =====
-- The ring buffer of latencies of benchmark/main.go.
pub mod Window
pub mod Reading
use scalability_engineering.Prelude.{
  ℕ, zero, suc, ◌+◌, ◌-◌, ◌%◌, Bool, true, false, Option, none, some, List, [], ◌∷◌, Run, ok, panic,
  ◌>>=◌, or_panic, length, get_elem?, set, ltb, ◌==◌, if◌then◌else◌, ℤ, pos,
}

-- Durations are in nanoseconds.
pub record RingBuffer : Type 0 where
  pub slots : List ℤ
  pub head : ℕ
  pub size : ℕ
  pub capacity : ℕ

-- `make([]time.Duration, n)`
unfoldable pub zeros : ℕ → List ℤ
zeros zero = []
zeros (suc n) = pos 0 ∷ zeros n

unfoldable pub new_ring_buffer : ℕ → RingBuffer
unfolding zeros
new_ring_buffer capacity = record {
  slots = zeros capacity;
  head = 0;
  size = 0;
  capacity = capacity;
}

-- The write panics if there is no slot at `head`, as in a buffer of capacity 0.
unfoldable pub add : RingBuffer → ℤ → Run RingBuffer
add rb value = do
  _ ← or_panic (get_elem? rb.slots rb.head)
  ok (record rb {
    slots = set rb.slots rb.head value;
    head = (rb.head + 1) % rb.capacity;
    size = if ltb rb.size rb.capacity then rb.size + 1 else rb.size;
  })

-- The loop of GetAll: the rounds left, and `i`. The size is at most the capacity, so the index that
-- Go computes with a difference in between is not negative.
unfoldable pub get_all_from : RingBuffer → ℕ → ℕ → Run (List ℤ)
get_all_from rb zero i = ok []
get_all_from rb (suc rounds) i = do
  value ← or_panic (get_elem? rb.slots ((rb.head + i + rb.capacity - rb.size) % rb.capacity))
  rest ← get_all_from rb rounds (i + 1)
  ok (value ∷ rest)

-- nil and the empty slice are both `[]`.
unfoldable pub get_all : RingBuffer → Run (List ℤ)
unfolding get_all_from
get_all rb = if rb.size == 0 then ok [] else get_all_from rb rb.size 0
