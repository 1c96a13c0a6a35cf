-- ===== src/PriorityQueue/Empty.antt =====
-- New and Clear.
use scalability_engineering.Prelude.{◌≡◌, refl, none, arith}
use scalability_engineering.Prelude.GoMap.{lookup}
use scalability_engineering.Index.{IsIndex-empty}
use scalability_engineering.PriorityQueue.{PriorityQueue, clear, new_priority_queue, view}
use scalability_engineering.PriorityQueue.Sift.{IsValid}

module _ {V : Type 0} (dec : Discrete V) where
  pub new_priority_queue-IsValid : IsValid dec new_priority_queue
  unfolding new_priority_queue
  new_priority_queue-IsValid = record {
    table = record { paired = refl; index = IsIndex-empty dec };
    heap = λ c p q. absurd (omega arith);
  }

  pub clear-IsValid : (q : PriorityQueue V) → IsValid dec (clear q)
  unfolding clear new_priority_queue
  clear-IsValid q = new_priority_queue-IsValid

  pub view-new_priority_queue : (v : V) → view dec new_priority_queue v ≡ none
  unfolding new_priority_queue lookup
  view-new_priority_queue v = refl

  pub view-clear : (q : PriorityQueue V) (v : V) → view dec (clear q) v ≡ none
  unfolding clear lookup
  view-clear q v = refl
