-- ===== src/HashMap/Bulk.antt =====
-- Clear, PutAll and ContainsAllKeys.
use mathlib.Core.Path.{fun_ext}
use scalability_engineering.Prelude.{
  ℕ, zero, suc, ◌+◌, ◌≡◌, refl, ap, ◌∙◌, true, Option, none, some, List, [], ◌∷◌, arith, ite,
  Option-cases, inl, inr, Returns, returns, Returns-bind, length, ◌≢◌, ◌↔◌, get_elem?,
}
use scalability_engineering.Prelude.GoMap.{lookup}
use scalability_engineering.Index.{IsIndex-empty}
use scalability_engineering.HashMap.{
  HashMap, Entry, size, clear, put_all, contains_all_keys, IsValid, view,
}
use scalability_engineering.HashMap.View.{put-Stored, contains_key_iff}

module _ {K V : Type 0} (dec : Discrete K) where
  pub clear-IsValid : (h : HashMap K V) → IsValid dec (clear h)
  unfolding clear
  clear-IsValid h = record { paired = refl; index = IsIndex-empty dec }

  pub view-clear : (h : HashMap K V) (j : K) → view dec (clear h) j ≡ none
  unfolding clear lookup
  view-clear h j = refl

  -- The function `f`, written over at the keys of the entries, the last entry of a key last.
  abbrev pub assign : (K → Option V) → List (Entry K V) → K → Option V
  assign f [] = f
  assign f (e ∷ es) = assign (λ j. ite (dec e.key j) (some e.value) (f j)) es

  pub record AllStored (h : HashMap K V) (es : List (Entry K V)) (r : HashMap K V × ℕ)
      : Type 0 where
    pub valid : IsValid dec r.0
    pub after : view dec r.0 ≡ assign (view dec h) es
    -- Each entry adds a key or is counted.
    pub sized : size r.0 + r.1 ≡ size h + length es

  -- PutAll on a valid map writes the entries one after the other, and counts the entries whose key
  -- was there when they were written.
  pub put_all-AllStored :
      (h : HashMap K V) (es : List (Entry K V))
      → IsValid dec h
      → Returns (AllStored h es) (put_all dec h es)
  unfolding put_all size
  put_all-AllStored h [] v = returns (record { valid = v; after = refl; sized = omega arith })
  put_all-AllStored h (e ∷ es) v = Returns-bind (put-Stored dec h v e.key e.value) λ r s.
      Returns-bind (put_all-AllStored r.0 es s.valid) λ t all. returns (record {
        valid = all.valid;
        after = all.after ∙ ap (λ f. assign f es) (fun_ext s.after);
        sized = elim (Option-cases r.1) [
          | inl e ↦ ground (arith, all.sized, s.sized)
          | inr (o, e) ↦ ground (arith, all.sized, s.sized)
        ];
      })

  module _ (h : HashMap K V) (v : IsValid dec h) where
    -- A key without a value makes ContainsAllKeys fail.
    pub contains_all_keys_sound :
        (ks : List K)
        → contains_all_keys dec h ks ≡ true
        → (i : ℕ) (k : K) → get_elem? ks i ≡ some k
        → view dec h k ≢ none
    unfolding contains_all_keys
    contains_all_keys_sound [] t i k e = cc
    contains_all_keys_sound (k ∷ ks) t zero j e = ground (arith, contains_key_iff dec h v k)
    contains_all_keys_sound (k ∷ ks) t (suc i) j e =
        contains_all_keys_sound ks (ground (arith, contains_key_iff dec h v k)) i j e

    pub contains_all_keys_complete :
        (ks : List K)
        → ((i : ℕ) (k : K) → get_elem? ks i ≡ some k → view dec h k ≢ none)
        → contains_all_keys dec h ks ≡ true
    unfolding contains_all_keys
    contains_all_keys_complete [] all = refl
    contains_all_keys_complete (k ∷ ks) all = ground (
      arith,
      contains_key_iff dec h v k,
      all 0 k refl,
      contains_all_keys_complete ks (λ i j e. all (suc i) j e),
    )

    -- ContainsAllKeys holds exactly when each of the keys has a value.
    pub contains_all_keys_iff :
        (ks : List K)
        → (contains_all_keys dec h ks ≡ true)
          ↔ ((i : ℕ) (k : K) → get_elem? ks i ≡ some k → view dec h k ≢ none)
    contains_all_keys_iff ks = (contains_all_keys_sound ks, contains_all_keys_complete ks)
