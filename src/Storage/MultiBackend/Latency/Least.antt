-- ===== src/Storage/MultiBackend/Latency/Least.antt =====
-- Which backend `determine_primary_by_latency` chooses.
use mathlib.Core.List.{Perm}
use mathlib.Core.Option.{some-injective}
use replica_t.Common.{
  ◌/◌, leb, IsSortedBy, IsTotalOrder, All-get_elem?, sort_by-perm, sort_by-IsSortedBy,
  length-sort_by, get_elem?-map, sym, subst, ℕ, zero, suc, ◌+◌, ◌<◌, ◌≤◌, ◌≡◌, ◌≢◌, refl, ap, ◌∙◌,
  Text, true, false, Option, none, some, List, [], ◌∷◌, map, length, get_elem?, get_elem?-some,
  get_elem?-lt, length-map, sort_by, insert_by, enumerate_from, arith, Bool-cases, inl, inr,
}
use replica_t.Types.Error.{Result, ok, err, panic}
use replica_t.Storage.Backend.{Call, StorageBackend}
use replica_t.Storage.MultiBackend.Latency.{
  p50, p50_le, latency_le, choose, backend_p50s, timed, push_latencies, benchmark, benchmark_all,
  benchmark_requests, determine_primary_by_latency,
}

-- The median of latencies: the one in the middle of them in ascending order, the upper one of two;
-- `none` where there are none.
abbrev pub IsMedian : List ℕ → Option ℕ → Type 0
IsMedian [] x = x ≡ none
IsMedian (l ∷ latencies) x =
    (sorted : List ℕ) × Perm sorted (l ∷ latencies)
    × ((i j a b : ℕ) → i < j → get_elem? sorted i ≡ some a → get_elem? sorted j ≡ some b → a ≤ b)
    × (m : ℕ) × (x ≡ some m)
    × (get_elem? sorted (suc (length latencies) / 2) ≡ some m)

-- Not slower; a backend without a median is slower than any that has one.
abbrev pub IsNotSlower : Option ℕ → Option ℕ → Type 0
IsNotSlower (some a) (some b) = a ≤ b
IsNotSlower (some a) none = Unit
IsNotSlower none (some b) = ⊥
IsNotSlower none none = Unit

-- The median `x` stands at `k`; none is faster, and all that stand before it are slower.
pub record IsFirstFastest (medians : List (Option ℕ)) (k : ℕ) (x : Option ℕ) : Type 0 where
  pub at_k : get_elem? medians k ≡ some x
  pub fastest : (j : ℕ) (y : Option ℕ) → get_elem? medians j ≡ some y → IsNotSlower x y
  pub first : (j : ℕ) (y : Option ℕ) → j < k → get_elem? medians j ≡ some y → IsNotSlower y x → ⊥

IsSortedBy-ascending :
    (l : List ℕ)
    → IsSortedBy leb l
    → (i j a b : ℕ) → i < j
    → get_elem? l i ≡ some a
    → get_elem? l j ≡ some b
    → a ≤ b
IsSortedBy-ascending [] s i j a b h p q = absurd (ground (arith, p))
IsSortedBy-ascending (x ∷ l) s i zero a b h p q = absurd (omega arith)
IsSortedBy-ascending (x ∷ l) s zero (suc j) a b h p q =
    let e = All-get_elem? (λ y. leb x y ≡ true) l j b s.0 q in
    let same : x ≡ a = some-injective _ _ p in ground (arith, e, same)
IsSortedBy-ascending (x ∷ l) s (suc i) (suc j) a b h p q =
    IsSortedBy-ascending l s.1 i j a b (omega arith) p q

leb-IsTotalOrder : IsTotalOrder leb
leb-IsTotalOrder = record {
  trans = λ a b c h k. ground (arith, h, k);
  total = λ a b h. ground (arith, h);
}

p50-IsMedian : (latencies : List ℕ) → IsMedian latencies (p50 latencies)
unfolding p50
p50-IsMedian [] = refl
p50-IsMedian (l ∷ latencies) =
    let sorted = sort_by leb (l ∷ latencies) in
    let size : length sorted ≡ suc (length latencies) = length-sort_by leb (l ∷ latencies) in
    let (m, e) = get_elem?-some sorted (suc (length latencies) / 2) (omega (arith, size)) in
    (
      sorted,
      sort_by-perm leb (l ∷ latencies),
      IsSortedBy-ascending sorted (sort_by-IsSortedBy leb leb-IsTotalOrder (l ∷ latencies)),
      m,
      e,
      e,
    )

latency_le-IsNotSlower : (x y : Option ℕ) → latency_le x y ≡ true → IsNotSlower x y
unfolding latency_le
latency_le-IsNotSlower (some a) (some b) h = ground (arith, h)
latency_le-IsNotSlower (some a) none h = tt
latency_le-IsNotSlower none (some b) h = ground (arith, h)
latency_le-IsNotSlower none none h = tt

latency_le-false : (x y : Option ℕ) → latency_le x y ≡ false → IsNotSlower x y → ⊥
unfolding latency_le
latency_le-false (some a) (some b) h k = ground (arith, h, k)
latency_le-false (some a) none h k = ground (arith, h)
latency_le-false none (some b) h k = k
latency_le-false none none h k = ground (arith, h)

p50s-IsMedian :
    (latencies : List (List ℕ)) (i : ℕ) (l : List ℕ) (x : Option ℕ)
    → get_elem? latencies i ≡ some l
    → get_elem? (map p50 latencies) i ≡ some x
    → IsMedian l x
p50s-IsMedian latencies i l x h k =
    let e : p50 l ≡ x = some-injective _ _ (sym (get_elem?-map p50 latencies i l h) ∙ k) in
    subst (IsMedian l) e (p50-IsMedian l)

-- `x` stands at `k`; no member is less than it, and it is less than every member before it.
pub record IsFirstLeast (p50s : List (Option ℕ)) (k : ℕ) (x : Option ℕ) : Type 0 where
  pub at_k : get_elem? p50s k ≡ some x
  pub least : (j : ℕ) (y : Option ℕ) → get_elem? p50s j ≡ some y → latency_le x y ≡ true
  pub first : (j : ℕ) (y : Option ℕ) → j < k → get_elem? p50s j ≡ some y → latency_le y x ≡ false

latency_le_refl : (x : Option ℕ) → latency_le x x ≡ true
unfolding latency_le
latency_le_refl none = refl
latency_le_refl (some a) = ground arith

latency_le_trans :
    (x y z : Option ℕ) → latency_le x y ≡ true → latency_le y z ≡ true → latency_le x z ≡ true
unfolding latency_le
latency_le_trans x y z h k = ground arith

latency_le_total : (x y : Option ℕ) → latency_le x y ≡ false → latency_le y x ≡ true
unfolding latency_le
latency_le_total x y h = ground arith

IsFirstLeast-single : (x : Option ℕ) → IsFirstLeast (x ∷ []) 0 x
IsFirstLeast-single x = record {
  at_k = refl;
  least = λ j y h. ground (arith, h, latency_le_refl x);
  first = λ j y b h. absurd (omega arith);
}

module _ (x z y : Option ℕ) (p50s : List (Option ℕ)) (k : ℕ) (f : IsFirstLeast (z ∷ p50s) k y) where
  least_here :
      latency_le x y ≡ true
      → (j : ℕ) (v : Option ℕ) → get_elem? (x ∷ z ∷ p50s) j ≡ some v
      → latency_le x v ≡ true
  least_here h zero v g = ground (arith, g, latency_le_refl x)
  least_here h (suc j) v g = latency_le_trans x y v h (f.least j v g)

  least_later :
      latency_le x y ≡ false
      → (j : ℕ) (v : Option ℕ) → get_elem? (x ∷ z ∷ p50s) j ≡ some v
      → latency_le y v ≡ true
  least_later h zero v g = ground (arith, g, latency_le_total x y h)
  least_later h (suc j) v g = f.least j v g

  first_later :
      latency_le x y ≡ false
      → (j : ℕ) (v : Option ℕ) → j < suc k
      → get_elem? (x ∷ z ∷ p50s) j ≡ some v
      → latency_le v y ≡ false
  first_later h zero v b g = ground (arith, g, h)
  first_later h (suc j) v b g = f.first j v (omega arith) g

  IsFirstLeast-here : latency_le x y ≡ true → IsFirstLeast (x ∷ z ∷ p50s) 0 x
  IsFirstLeast-here h = record {
    at_k = refl;
    least = least_here h;
    first = λ j v b g. absurd (omega arith);
  }

  IsFirstLeast-later : latency_le x y ≡ false → IsFirstLeast (x ∷ z ∷ p50s) (suc k) y
  IsFirstLeast-later h = record { at_k = f.at_k; least = least_later h; first = first_later h }

-- The head of the sorted list is the first least member.
head_sorted :
    (i : ℕ) (x : Option ℕ) (p50s : List (Option ℕ))
    → (k : ℕ) × (y : Option ℕ) × (rest : List (ℕ × Option ℕ)) × (sort_by p50_le
          (enumerate_from i (x ∷ p50s))
        ≡ (i + k, y) ∷ rest)
      × IsFirstLeast (x ∷ p50s) k y
unfolding sort_by p50_le
head_sorted i x [] = (0, x, [], ap (λ j. (j, x) ∷ []) (omega arith), IsFirstLeast-single x)
head_sorted i x (z ∷ p50s) =
    let (k, y, rest, e, f) = head_sorted (suc i) z p50s in
    elim (Bool-cases (latency_le x y)) [
      | inl h ↦ (
        0,
        x,
        (suc i + k, y) ∷ rest,
        rw (e, insert_by) (rw h (ap (λ j. (j, x) ∷ (suc i + k, y) ∷ rest) (omega arith))),
        IsFirstLeast-here x z y p50s k f h,
      )
      | inr h ↦ (
        suc k,
        y,
        insert_by p50_le (i, x) rest,
        rw (e, insert_by) (rw h (ap (λ j. (j, y) ∷ insert_by p50_le (i, x) rest) (omega arith))),
        IsFirstLeast-later x z y p50s k f h,
      )
    ]

map-enumerate_from :
    (i : ℕ) (latencies : List (List ℕ))
    → backend_p50s (enumerate_from i latencies) ≡ enumerate_from i (map p50 latencies)
unfolding backend_p50s
map-enumerate_from i [] = refl
map-enumerate_from i (l ∷ latencies) = ap (◌∷◌ (i, p50 l)) (map-enumerate_from (suc i) latencies)

-- Where the first least median is `none`, all are, and it stands in front.
choose_head :
    (p50s : List (Option ℕ)) (x : Option ℕ) (k : ℕ) (y : Option ℕ) (rest : List (ℕ × Option ℕ))
    → IsFirstLeast (x ∷ p50s) k y
    → choose ((k, y) ∷ rest) ≡ ok k
unfolding choose latency_le
choose_head p50s x k (some m) rest f = refl
choose_head p50s x zero none rest f = refl
choose_head p50s x (suc k) none rest f = ground (arith, f.first 0 x (omega arith) refl)

-- What is chosen from the medians: the first least one.
choose-sort_by :
    (x : Option ℕ) (p50s : List (Option ℕ))
    → (k : ℕ) × (y : Option ℕ) × (choose (sort_by p50_le (enumerate_from 0 (x ∷ p50s))) ≡ ok k)
      × IsFirstLeast (x ∷ p50s) k y
choose-sort_by x p50s =
    let (k, y, rest, e, f) = head_sorted 0 x p50s in
    (k, y, ap choose (e ∙ ap (λ j. (j, y) ∷ rest) (omega arith)) ∙ choose_head p50s x k y rest f, f)

chosen :
    (latencies : List (List ℕ))
    → 0 < length latencies
    → (k : ℕ) × (x : Option ℕ) × (choose
          (sort_by p50_le (backend_p50s (enumerate_from 0 latencies)))
        ≡ ok k)
      × (k < length latencies)
      × IsFirstLeast (map p50 latencies) k x
chosen [] h = absurd (omega arith)
chosen (l ∷ ls) h =
    let (k, x, c, f) = choose-sort_by (p50 l) (map p50 ls) in
    (
      k,
      x,
      rw (map-enumerate_from 0 (l ∷ ls)) c,
      omega (arith, get_elem?-lt (map p50 (l ∷ ls)) k x f.at_k, length-map p50 (l ∷ ls)),
      f,
    )

module _ {W : Type 0} where
  -- Backends whose HEAD bucket does not panic.
  abbrev pub Calm : List (StorageBackend W) → Type 0
  Calm backends =
      (i : ℕ) (b : StorageBackend W)
      → get_elem? backends i ≡ some b
      → (w : W) → (b.head_bucket w).0 ≢ panic

module _ {W : Type 0} where
  timed_total :
      (d : ℕ) (r : Result (Unit {0})) (rest : Call W (List ℕ)) (w : W)
      → r ≢ panic
      → (l : List ℕ) × ((rest w).0 ≡ ok l)
      → (l : List ℕ) × ((timed d r rest w).0 ≡ ok l)
  unfolding timed
  timed_total d (ok _) rest w calm (l, e) = (d ∷ l, rw e)
  timed_total d (err _) rest w calm (l, e) = (l, e)
  timed_total d panic rest w calm out = absurd (calm refl)

module _ {W : Type 0} (elapsed : W → W → ℕ) where
  benchmark_total :
      (n : ℕ) (b : StorageBackend W)
      → ((w : W) → (b.head_bucket w).0 ≢ panic)
      → (w : W) → (l : List ℕ) × ((benchmark elapsed n b w).0 ≡ ok l)
  unfolding benchmark
  benchmark_total zero b calm w = ([], refl)
  benchmark_total (suc n) b calm w =
      let (r, w') = b.head_bucket w in
      timed_total (elapsed w w') r (benchmark elapsed n b) w' (calm w) (benchmark_total n b calm w')

  push_latencies_step :
      (names : List Text) (i : ℕ) (b : StorageBackend W) (backends : List (ℕ × StorageBackend W))
      (w : W) (name : Text) (l : List ℕ) (ls : List (ℕ × List ℕ))
      → get_elem? names i ≡ some name
      → (benchmark elapsed benchmark_requests b w).0 ≡ ok l
      → (benchmark_all elapsed names backends (benchmark elapsed benchmark_requests b w).1).0
        ≡ ok ls
      → (benchmark_all elapsed names ((i, b) ∷ backends) w).0 ≡ ok ((i, l) ∷ ls)
  unfolding benchmark_all
  push_latencies_step names i b backends w name l ls n e f =
      rw (n, benchmark_all) (rw (e, push_latencies) (rw f))

  benchmark_all_total :
      (names : List Text) (backends : List (StorageBackend W)) (i : ℕ) (w : W)
      → Calm backends
      → i + length backends ≤ length names
      → (latencies : List (List ℕ)) × (length latencies ≡ length backends)
        × ((benchmark_all elapsed names (enumerate_from i backends) w).0
            ≡ ok (enumerate_from i latencies))
  unfolding benchmark_all
  benchmark_all_total names [] i w calm h = ([], refl, refl)
  benchmark_all_total names (b ∷ backends) i w calm h =
      let (l, e) = benchmark_total benchmark_requests b (calm 0 b refl) w in
      let (ls, n, f) =
        benchmark_all_total names backends (suc i) (benchmark elapsed benchmark_requests b w).1
          (λ j. calm (suc j)) (omega arith) in
      let (name, g) = get_elem?-some names i (omega arith) in
      (
        l ∷ ls,
        ap suc n,
        push_latencies_step names i b (enumerate_from (suc i) backends) w name l
            (enumerate_from (suc i) ls) g e f,
      )

  pub determine_primary_by_latency_least :
      (backends : List (StorageBackend W)) (names : List Text) (w : W)
      → 0 < length backends
      → length backends ≤ length names
      → Calm backends
      → (latencies : List (List ℕ)) × (k : ℕ) × (x : Option ℕ) × ((benchmark_all elapsed names
            (enumerate_from 0 backends)
            w).0
          ≡ ok (enumerate_from 0 latencies))
        × ((determine_primary_by_latency elapsed backends names w).0 ≡ ok k)
        × (length latencies ≡ length backends)
        × (k < length backends)
        × (medians : List (Option ℕ)) × (length medians ≡ length latencies)
        × ((i : ℕ) (l : List ℕ) (y : Option ℕ)
            → get_elem? latencies i ≡ some l
            → get_elem? medians i ≡ some y
            → IsMedian l y)
        × IsFirstFastest medians k x
  unfolding determine_primary_by_latency
  determine_primary_by_latency_least backends names w some_there named calm =
      let (latencies, n, e) = benchmark_all_total names backends 0 w calm (omega arith) in
      let (k, x, c, b, f) = chosen latencies (omega (arith, n)) in
      (
        latencies,
        k,
        x,
        e,
        rw e c,
        n,
        omega (arith, n),
        map p50 latencies,
        length-map p50 latencies,
        p50s-IsMedian latencies,
        record {
          at_k = f.at_k;
          fastest = λ j y h. latency_le-IsNotSlower x y (f.least j y h);
          first = λ j y b h. latency_le-false y x (f.first j y b h);
        },
      )
