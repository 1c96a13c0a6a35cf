-- ===== src/HashMap/Iterating.antt =====
-- The iterator.
use scalability_engineering.Prelude.{
  ℕ, zero, suc, ◌+◌, ◌≡◌, refl, sym, ap, ◌∙◌, none, some, List, [], ◌∷◌, Run, ok, out_of_fuel,
  ◌>>=◌, arith, inl, inr, length, get_elem?-some, ◌<◌, ◌≤◌, get_elem?, ltb, if◌then◌else◌,
  Bool-cases, ltb→lt,
}
use scalability_engineering.HashMap.{
  HashMap, Entry, Iterator, entries, new_iterator, has_next, next,
}

module _ {K V : Type 0} where
  -- `for it.HasNext() { … it.Next() … }`
  abbrev pub drain : ℕ → Iterator K V → Run (List (Entry K V))
  drain zero it = out_of_fuel
  drain (suc n) it =
      let step : Run (List (Entry K V)) = do
        (it', e) ← next it
        rest ← drain n it'
        ok (elim e [ none ↦ rest | some a ↦ a ∷ rest ])
      in if has_next it then step else ok []

  abbrev drop : ℕ → List (Entry K V) → List (Entry K V)
  drop zero es = es
  drop (suc n) [] = []
  drop (suc n) (e ∷ es) = drop n es

  drop-all : (i : ℕ) (es : List (Entry K V)) → length es ≤ i → drop i es ≡ []
  drop-all zero [] p = refl
  drop-all zero (e ∷ es) p = absurd (omega arith)
  drop-all (suc i) [] p = refl
  drop-all (suc i) (e ∷ es) p = drop-all i es (omega arith)

  drop-at :
      (i : ℕ) (es : List (Entry K V)) (e : Entry K V)
      → get_elem? es i ≡ some e
      → drop i es ≡ e ∷ drop (i + 1) es
  drop-at zero (f ∷ es) e p = ground arith
  drop-at (suc i) (f ∷ es) e p =
      let q : suc i + 1 ≡ suc (i + 1) = omega arith in rw q (drop-at i es e p)
  drop-at i [] e p = cc

  drain-drop :
      (n : ℕ) (it : Iterator K V)
      → length it.entries < n + it.index
      → it.index ≤ length it.entries
      → drain n it ≡ ok (drop it.index it.entries)
  unfolding has_next next
  drain-drop zero it p q = absurd (omega arith)
  drain-drop (suc n) it p q = elim (Bool-cases (ltb it.index (length it.entries))) [
    | inl more ↦
        let (e, ee) = get_elem?-some it.entries it.index (ltb→lt _ _ more) in
        rw
          (more, ee, drain-drop n (record it { index = it.index + 1 }) (omega arith) (ground arith))
          (ap ok (sym (drop-at it.index it.entries e ee)))
    | inr done ↦ rw done (ap ok (sym (drop-all it.index it.entries (ground arith))))
  ]

  -- A loop over a new iterator visits the entries that the map had then, in order, and ends.
  pub drain-new_iterator :
      (h : HashMap K V) (es : List (Entry K V)) (it : Iterator K V)
      → entries h ≡ ok es
      → new_iterator h ≡ ok it
      → drain (length es + 1) it ≡ ok es
  unfolding new_iterator
  drain-new_iterator h es it p q =
      let at : it.entries ≡ es = ground arith in
      let start : it.index ≡ 0 = ground arith in
      let whole : drop it.index it.entries ≡ es = ap (λ i. drop i it.entries) start ∙ at in
      drain-drop (length es + 1) it (omega (arith, ap length at)) (omega arith) ∙ ap ok whole
