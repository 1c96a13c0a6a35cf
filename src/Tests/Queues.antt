-- ===== src/Tests/Queues.antt =====
-- A queue of three values, and the theorems on PriorityQueue at it.
use native.Mathlib.Nat.{
  mul_comm, le-mul_of_pos_right, mul-add-mod_self_left, add-mod_right, mod-eq_of_lt,
}
use scalability_engineering.Prelude.Int.{pos_part-add}
use scalability_engineering.Prelude.{
  ℕ, ℤ, pos_part, ◌-◌, ◌+◌, ◌∙◌, ◌≤◌, ◌*◌, ◌+◌, ◌≡◌, refl, true, [], ◌∷◌, String, string_discrete,
  Returns, pos, ok, length, arith, ◌↔◌,
}
use scalability_engineering.Prelude.GoMap.{empty, insert, lookup, size}
use scalability_engineering.PriorityQueue
use scalability_engineering.PriorityQueue.{PriorityQueue}
use scalability_engineering.PriorityQueue.Sift
use scalability_engineering.PriorityQueue.Update
use scalability_engineering.PriorityQueue.Remove
use scalability_engineering.PriorityQueue.Extract
use scalability_engineering.PriorityQueue.Sorted
use scalability_engineering.PriorityQueue.Validate
use scalability_engineering.PriorityQueue.Subset
use scalability_engineering.PriorityQueue.Subset.Rejection
use scalability_engineering.PriorityQueue.Subset.Reservoir

-- "a" with 3, "b" with 5 and "c" with 8, with "c" before "b".
abbrev pub three : PriorityQueue String
three = record {
  priorities = pos 3 ∷ pos 8 ∷ pos 5 ∷ [];
  values = "a" ∷ "c" ∷ "b" ∷ [];
  index_map =
      insert string_discrete "b" 2
        (insert string_discrete "c" 1 (insert string_discrete "a" 0 empty));
}

pub three-IsValid : PriorityQueue.Sift.IsValid string_discrete three
unfolding PriorityQueue.Validate.validate lookup insert size string_discrete
three-IsValid = PriorityQueue.Validate.IsValid_of_validate string_discrete three refl

insert-Inserted_example :
    Returns
      (PriorityQueue.Update.Inserted string_discrete three (pos 1) "b")
      (PriorityQueue.insert string_discrete three (pos 1) "b")
insert-Inserted_example =
    PriorityQueue.Update.insert-Inserted string_discrete three three-IsValid (pos 1) "b"

remove-Taken_example :
    Returns
      (PriorityQueue.Remove.Taken string_discrete three "a")
      (PriorityQueue.remove string_discrete three "a")
remove-Taken_example = PriorityQueue.Remove.remove-Taken string_discrete three "a" three-IsValid

extract_min-Extracted_example :
    Returns
      (PriorityQueue.Extract.Extracted string_discrete three three-IsValid)
      (PriorityQueue.extract_min string_discrete three)
extract_min-Extracted_example =
    PriorityQueue.Extract.extract_min-Extracted string_discrete three three-IsValid

get_priority-view_example :
    PriorityQueue.get_priority string_discrete three "c"
    ≡ ok (PriorityQueue.view string_discrete three "c")
get_priority-view_example =
    PriorityQueue.Extract.get_priority-view string_discrete three three-IsValid "c"

to_sorted_slices-Lists_example :
    Returns
      (λ r. PriorityQueue.Sorted.Lists string_discrete three r.0 r.1)
      (PriorityQueue.Sorted.to_sorted_slices string_discrete three)
to_sorted_slices-Lists_example =
    PriorityQueue.Sorted.to_sorted_slices-Lists string_discrete three three-IsValid

extract_min_bulk-Trimmed_example :
    Returns
      (PriorityQueue.Sorted.Trimmed string_discrete three 2)
      (PriorityQueue.extract_min_bulk string_discrete three 2)
extract_min_bulk-Trimmed_example =
    PriorityQueue.Sorted.extract_min_bulk-Trimmed string_discrete 2 three three-IsValid

validate-IsValid_example :
    Returns
      (λ b. (b ≡ true) ↔ PriorityQueue.Sift.IsValid string_discrete three)
      (PriorityQueue.Validate.validate string_discrete three)
validate-IsValid_example = PriorityQueue.Validate.validate-IsValid string_discrete three

-- Draws that count up, as the clock does.
abbrev pub counting : PriorityQueue.Subset.Random
counting = record { clock = λ k. pos k; first_int = λ seed. pos_part seed }

fast_rand-counting : (count k : ℕ) → PriorityQueue.Subset.fast_rand counting count k ≡ k + count
unfolding PriorityQueue.Subset.fast_rand
fast_rand-counting count k = pos_part-add k count

counting-Recurs :
    (count : ℕ)
    → PriorityQueue.Subset.Rejection.Recurs (PriorityQueue.Subset.fast_rand counting count) count
counting-Recurs count k i h =
    let turned : (k + 1) * count ≡ count * (k + 1) = mul_comm (k + 1) count in
    let most : k + 1 ≤ (k + 1) * count = le-mul_of_pos_right (k + 1) (omega (arith, h)) in
    let more : k + 1 ≤ count * (k + 1) = omega (arith, turned, most) in
    let sum : k + (count * (k + 1) + i - k) + count ≡ count * (k + 1) + (i + count) =
      omega (arith, more) in
    (
      count * (k + 1) + i - k,
      rw (fast_rand-counting count (k + (count * (k + 1) + i - k)), sum)
          (mul-add-mod_self_left count (k + 1) (i + count)
            ∙ add-mod_right i count
            ∙ mod-eq_of_lt h),
    )

pub counting-IsServed :
    (count : ℕ) (n : ℤ) → PriorityQueue.Subset.Reservoir.IsServed counting count n
counting-IsServed count n h p = counting-Recurs count

get_random_subset-Selection_example :
    PriorityQueue.Subset.Rejection.Settles
      (PriorityQueue.Subset.Rejection.Selection three.values
        (PriorityQueue.Subset.Reservoir.subset_size (pos 1) (length three.values)))
      (λ fuel. PriorityQueue.Subset.get_random_subset string_discrete fuel counting three (pos 1))
get_random_subset-Selection_example =
    PriorityQueue.Subset.Reservoir.get_random_subset-Selection string_discrete counting three
      (pos 1) three-IsValid (counting-IsServed 3 (pos 1))
