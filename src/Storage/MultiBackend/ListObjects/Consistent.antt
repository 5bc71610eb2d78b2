-- ===== src/Storage/MultiBackend/ListObjects/Consistent.antt =====
-- What an ALL_CONSISTENT listing of list_objects.rs rests on.
use replica_t.Common.{
  ℕ, suc, ℤ, Text, text_eq_iff, ◌≡◌, ◌↔◌, refl, sym, ap, ◌∙◌, false, Option, none, some, List, [],
  ◌∷◌, map, length, length-map, get_elem?, enumerate_from, All, ◌==◌, ==_refl, arith, Option-cases,
  Bool-cases, inl, inr,
}
use replica_t.Types.Error.{Result, ok, err, panic, ◌>>=◌, bind-eq-ok}
use replica_t.Types.Models.{ObjectMetadata}
use replica_t.Storage.HashMap.{get}
use replica_t.Storage.Schedule.{IsSchedule, join_all}
use replica_t.Storage.Schedule.Joined.{join_all-enumerate_from}
use replica_t.Storage.MultiBackend.{MultiBackend}
use replica_t.Storage.MultiBackend.Utils.Consistent.{
  length-enumerate_from, get_elem?-enumerate_from, enumerate_from-get_elem?,
}
use replica_t.Storage.MultiBackend.ListObjects.{
  collect_lists, etags_by_key, check_objects, check_lists, check_all_lists,
  list_objects_all_consistent,
}

-- As many objects as the primary lists, each with a key that the primary lists, and with the ETag
-- that the primary has for it.
abbrev pub Matches : List ObjectMetadata → List ObjectMetadata → Type 0
Matches primary_list objects =
    (length objects ≡ length primary_list)
    × All (λ o. get o.key (etags_by_key [] primary_list) ≡ some o.etag) objects

-- Each list but that of the primary matches; the first of the lists has index `i`.
abbrev pub OthersMatch : ℕ → List ObjectMetadata → ℕ → List (List ObjectMetadata) → Type 0
OthersMatch p primary_list i [] = Unit
OthersMatch p primary_list i (objects ∷ lists) =
    ((i == p) ≡ false → Matches primary_list objects) × OthersMatch p primary_list (suc i) lists

collect_lists-eq-ok :
    (i : ℕ) (rs : List (Result (List ObjectMetadata))) (out : List (ℕ × List ObjectMetadata))
    → collect_lists (enumerate_from i rs) ≡ ok out
    → (lists : List (List ObjectMetadata)) × (rs ≡ map ok lists) × (out ≡ enumerate_from i lists)
unfolding collect_lists
collect_lists-eq-ok i [] out h = ([], refl, ground (arith, h))
collect_lists-eq-ok i (ok objects ∷ rs) out h =
    let (rest, e, f) = bind-eq-ok (collect_lists (enumerate_from (suc i) rs)) _ h in
    let (lists, g, k) = collect_lists-eq-ok (suc i) rs rest e in
    (objects ∷ lists, ap (◌∷◌ (ok objects)) g, ground (arith, f, k))
collect_lists-eq-ok i (err e ∷ rs) out h = absurd (ground (arith, h))
collect_lists-eq-ok i (panic ∷ rs) out h = absurd (ground (arith, h))

collect_lists-map :
    (i : ℕ) (lists : List (List ObjectMetadata))
    → collect_lists (enumerate_from i (map ok lists)) ≡ ok (enumerate_from i lists)
unfolding collect_lists
collect_lists-map i [] = refl
collect_lists-map i (objects ∷ lists) = rw (collect_lists-map (suc i) lists)

check_objects-iff_All :
    (m : List (Text × Text)) (objects : List ObjectMetadata)
    → (check_objects m objects ≡ ok tt) ↔ All (λ o. get o.key m ≡ some o.etag) objects
unfolding check_objects
check_objects-iff_All m [] = (λ h. tt, λ h. refl)
check_objects-iff_All m (o ∷ objects) = elim (Option-cases (get o.key m)) [
  | inl e ↦ (λ h. absurd (ground (arith, h, e)), λ h. absurd (ground (arith, h.0, e)))
  | inr (etag, e) ↦ (
    λ h. ground (arith, h, e, text_eq_iff o.etag etag, (check_objects-iff_All m objects).0),
    λ h. ground (arith, h.0, h.1, e, text_eq_iff o.etag etag, (check_objects-iff_All m objects).1),
  )
]

-- One turn of the loop over the lists, on a list that is not the primary's.
check_lists-step :
    (p : ℕ) (l : List ObjectMetadata) (i : ℕ) (objects : List ObjectMetadata)
    (lists : List (ℕ × List ObjectMetadata))
    → (i == p) ≡ false
    → (check_lists p l ((i, objects) ∷ lists) ≡ ok tt)
      ↔ (Matches l objects × (check_lists p l lists ≡ ok tt))
unfolding check_lists
check_lists-step p l i objects lists other =
    let (to_all, from_all) = check_objects-iff_All (etags_by_key [] l) objects in
    elim (Bool-cases (length objects == length l)) [
      | inl e ↦ (
        λ h.
            let (u, x, y) =
              bind-eq-ok (check_objects (etags_by_key [] l) objects) (λ _. check_lists p l lists)
                (ground (arith, h, other, e)) in
            ((ground arith, to_all x), y),
        λ h. rw (other, check_lists) (rw e (rw (from_all h.0.1) h.1)),
      )
      | inr e ↦ (λ h. absurd (ground (arith, h, other, e)), λ h. absurd (ground (arith, h.0.0, e)))
    ]

check_lists-iff_OthersMatch :
    (p : ℕ) (l : List ObjectMetadata) (i : ℕ) (lists : List (List ObjectMetadata))
    → (check_lists p l (enumerate_from i lists) ≡ ok tt) ↔ OthersMatch p l i lists
unfolding check_lists
check_lists-iff_OthersMatch p l i [] = (λ h. tt, λ h. refl)
check_lists-iff_OthersMatch p l i (objects ∷ lists) =
    let rest = check_lists-iff_OthersMatch p l (suc i) lists in
    elim (Bool-cases (i == p)) [
      | inl e ↦ (
        λ h. (λ other. absurd (ground arith), rest.0 (ground (arith, h, e))),
        λ h. rw (e, check_lists) (rest.1 h.1),
      )
      | inr e ↦
          let step = check_lists-step p l i objects (enumerate_from (suc i) lists) e in
          (λ h. let (x, y) = step.0 h in (λ other. x, rest.0 y), λ h. step.1 (h.0 e, rest.1 h.1))
    ]

-- What follows the check on the number of lists.
abbrev picked :
    ℕ
    → List (ℕ × List ObjectMetadata)
    → Option (ℕ × List ObjectMetadata)
    → Result (List ObjectMetadata)
picked p lists none = panic
picked p lists (some (i, l)) = check_lists p l lists >>= λ _. ok l

picked-eq-ok :
    (p : ℕ) (lists : List (ℕ × List ObjectMetadata)) (o : Option (ℕ × List ObjectMetadata))
    (l : List ObjectMetadata)
    → picked p lists o ≡ ok l
    → (j : ℕ) × (o ≡ some (j, l)) × (check_lists p l lists ≡ ok tt)
picked-eq-ok p lists none l h = absurd (ground (arith, h))
picked-eq-ok p lists (some (j, l')) l h =
    let (u, x, y) = bind-eq-ok (check_lists p l' lists) (λ _. ok l') h in
    let same : l' ≡ l = ground (arith, y) in (j, ap (λ k. some (j, k)) same, rw (← same) x)

check_all_lists-eq :
    (p : ℕ) (lists : List (List ObjectMetadata))
    → check_all_lists (length lists) p (enumerate_from 0 lists)
      ≡ picked p (enumerate_from 0 lists) (get_elem? (enumerate_from 0 lists) p)
unfolding check_all_lists
check_all_lists-eq p lists = rw (length-enumerate_from 0 lists) (rw (==_refl (length lists)))

-- The lists are accepted, as the primary's, exactly if the others match it.
check_all_lists-iff_OthersMatch :
    (p : ℕ) (lists : List (List ObjectMetadata)) (l : List ObjectMetadata)
    → (check_all_lists (length lists) p (enumerate_from 0 lists) ≡ ok l)
      ↔ ((get_elem? lists p ≡ some l) × OthersMatch p l 0 lists)
check_all_lists-iff_OthersMatch p lists l = (
  λ h.
      let (j, e, f) =
        picked-eq-ok p (enumerate_from 0 lists) (get_elem? (enumerate_from 0 lists) p) l
          (sym (check_all_lists-eq p lists) ∙ h) in
      (get_elem?-enumerate_from 0 p lists j l e, (check_lists-iff_OthersMatch p l 0 lists).0 f),
  λ h.
      check_all_lists-eq p lists
      ∙ rw (enumerate_from-get_elem? 0 p lists l h.0)
          (rw ((check_lists-iff_OthersMatch p l 0 lists).1 h.1) refl),
)

-- The joined results are accepted only if each is a list, and the lists are.
results_accepted :
    (p n : ℕ) (rs : List (Result (List ObjectMetadata))) (l : List ObjectMetadata)
    → length rs ≡ n
    → (collect_lists (enumerate_from 0 rs) >>= check_all_lists n p) ≡ ok l
    → (lists : List (List ObjectMetadata)) × (rs ≡ map ok lists)
      × (length lists ≡ n)
      × (get_elem? lists p ≡ some l)
      × OthersMatch p l 0 lists
results_accepted p n rs l count h =
    let (kept, g, k) = bind-eq-ok (collect_lists (enumerate_from 0 rs)) (check_all_lists n p) h in
    let (lists, x, y) = collect_lists-eq-ok 0 rs kept g in
    let same : length lists ≡ n = sym (length-map ok lists) ∙ ap length (sym x) ∙ count in
    let accepted : check_all_lists n p (enumerate_from 0 lists) ≡ ok l =
      ap (check_all_lists n p) (sym y) ∙ k in
    let (at, others) =
      (check_all_lists-iff_OthersMatch p lists l).0
        (ap (λ i. check_all_lists i p (enumerate_from 0 lists)) same ∙ accepted) in
    (lists, x, same, at, others)

module _ {W : Type 0} (m : MultiBackend W) (order : List ℕ) (prefix : Option Text)
    (max_keys : ℤ) where
  pub list_objects_all_consistent-ok_iff :
      (w : W) (l : List ObjectMetadata)
      → IsSchedule (length m.backends) order
      → ((list_objects_all_consistent m order prefix max_keys w).0 ≡ ok l) ↔ (
          (lists : List (List ObjectMetadata)) × ((join_all
              (map (λ b. b.list_objects prefix max_keys) m.backends)
              order
              w).0
            ≡ ok (enumerate_from 0 (map ok lists)))
          × (length lists ≡ length m.backends)
          × (get_elem? lists m.primary_index ≡ some l)
          × OthersMatch m.primary_index l 0 lists)
  unfolding list_objects_all_consistent
  list_objects_all_consistent-ok_iff w l s =
      let tasks = map (λ b. b.list_objects prefix max_keys) m.backends in
      (
        λ h.
            elim (join_all-enumerate_from tasks order w
              (rw (length-map (λ b. b.list_objects prefix max_keys) m.backends) s)) [
                | inl unwound ↦ absurd (ground (arith, h, unwound))
                | inr (rs, joined, n) ↦
                    let (lists, x, count, at, others) =
                      results_accepted m.primary_index (length m.backends) rs l
                        (n ∙ length-map (λ b. b.list_objects prefix max_keys) m.backends)
                        (ap
                            (λ r. r >>= λ results.
                              collect_lists results
                              >>= check_all_lists (length m.backends) m.primary_index)
                            (sym joined)
                          ∙ h) in
                    (lists, rw (← x) joined, count, at, others)
              ],
        λ (lists, e, n, at, others). rw e (
            rw (collect_lists-map 0 lists) (
              rw (← n) ((check_all_lists-iff_OthersMatch m.primary_index lists l).1 (at, others)))),
      )
