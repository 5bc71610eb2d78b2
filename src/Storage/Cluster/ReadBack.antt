-- ===== src/Storage/Cluster/ReadBack.antt =====
-- Reads over in-memory backends that hold the same object, and reads after a MULTI_SYNC write.
use replica_t.Common.{
  ℕ, zero, suc, ◌<◌, Text, text_eq_refl, ◌≡◌, refl, ap, ◌∙◌, some, List, [], ◌∷◌, map, set, length,
  get_elem?, get_elem?-some, get_elem?-lt, get_elem?-map, length-map, enumerate_from, sym, none,
  arith,
}
use mathlib.Core.List.{flatten}
use replica_t.Crypto.{Crypto}
use replica_t.Config.Modes.{
  ReadMode, primary_only, primary_fallback, best_effort, all_consistent, multi_sync,
}
use replica_t.Types.Error.{Result, ok, no_such_key}
use replica_t.Types.Models.{ObjectMetadata, DateTime}
use replica_t.Storage.Backend.{Call, StorageBackend, ObjectStream, Bytes}
use replica_t.Storage.Schedule.{IsSchedule, contains}
use replica_t.Storage.Schedule.Each.{
  tabulate, length-tabulate, get_elem?-tabulate, All-tabulate, map-tabulate, join_all_each,
}
use replica_t.Storage.Schedule.Agreed.{AllGive}
use replica_t.Storage.InMemory
use replica_t.Storage.InMemory.{InMemoryStorage, stored}
use replica_t.Storage.InMemory.Objects.{get_object-put_object}
use replica_t.Storage.Cluster.{Cluster, in_memory, on_store, put_back, backends_from}
use replica_t.Storage.Cluster.Runs.{
  calls_from, backend_tasks, length-calls_from, get_elem?-calls_from,
}
use replica_t.Storage.Cluster.MultiSync.{length-backends_from, put_object_multi_sync}
use replica_t.Storage.MultiBackend.{MultiBackend, primary}
use replica_t.Storage.MultiBackend.Reads.{on_primary, is_no_such_key, get_object, get_object_impl}
use replica_t.Storage.MultiBackend.Utils.{race, race_all_backends, try_primary_fallback, on_result}
use replica_t.Storage.MultiBackend.Writes.{put_object}
use replica_t.Storage.MultiBackend.Utils.Consistent.{verify_all_consistent_etag-ok_iff}

pub set_same :
    {A : Type 0} (xs : List A) (i : ℕ) (a : A) → get_elem? xs i ≡ some a → set xs i a ≡ xs
set_same [] i a h = refl
set_same (x ∷ xs) zero a h = ground (arith, h)
set_same (x ∷ xs) (suc i) a h = ap (◌∷◌ x) (set_same xs i a h)

pub get_tasks :
    (c : Crypto) (key : Text) (i n : ℕ)
    → map (λ b. b.get_object key) (backends_from c i n)
      ≡ calls_from (λ now. InMemory.get_object key) i n
unfolding in_memory
get_tasks c key =
    backend_tasks (λ now. InMemory.get_object key) c (λ b. b.get_object key) (λ i. refl)

module _ {A : Type 0} (call : DateTime → Call InMemoryStorage A) (r : Result A) (w : Cluster) where
  pub on_store_agreed :
      (i : ℕ) (s : InMemoryStorage)
      → get_elem? w.stores i ≡ some s
      → call (w.clock i) s ≡ (r, s)
      → on_store i call w ≡ (r, w)
  unfolding on_store
  on_store_agreed i s e h = rw (e, on_store) (rw (h, put_back) (rw (set_same w.stores i s e)))

  pub calls_agreed :
      (n : ℕ)
      → length w.stores ≡ n
      → ((i : ℕ) (s : InMemoryStorage)
          → get_elem? w.stores i ≡ some s
          → call (w.clock i) s ≡ (r, s))
      → AllGive (calls_from call 0 n) r w
  calls_agreed n l each i task t =
      let b : i < n =
        rw (length-calls_from call 0 n) at (get_elem?-lt (calls_from call 0 n) i task t) in
      let (s, e) = get_elem?-some w.stores i (rw l b) in
      let at_i : get_elem? (calls_from call 0 n) i ≡ some (on_store i call) =
        get_elem?-calls_from call 0 n i b ∙ ap (λ j. some (on_store j call)) (omega arith) in
      let same : task ≡ on_store i call = cc in rw same (on_store_agreed i s e (each i s e))

module _ (c : Crypto) (reason : Text) (key : Text) (chunks : List Bytes) where
  -- A store that has taken the PUT answers a GET of the key with the body.
  pub get_after_put :
      (now : DateTime) (s : InMemoryStorage)
      → InMemory.get_object key (InMemory.put_object c now key (map ok chunks) s).1 ≡ (
        ok (ok (flatten chunks) ∷ [], (stored c now key (flatten chunks)).metadata),
        (InMemory.put_object c now key (map ok chunks) s).1,
      )
  unfolding InMemory.get_object
  get_after_put now s =
      let got = (get_object-put_object c now key chunks key s).1 in
      ground (arith, text_eq_refl key, got)

  -- The answer of backend `i` after the PUT.
  abbrev pub answer : Cluster → ℕ → ObjectStream × ObjectMetadata
  answer w i = (ok (flatten chunks) ∷ [], (stored c (w.clock i) key (flatten chunks)).metadata)

  module _ (m : MultiBackend Cluster) (n : ℕ) (order : List ℕ) (w w' : Cluster)
      (same_length : length m.backends ≡ n) (primary : m.primary_index < n) (s : IsSchedule n order)
      (each : (i : ℕ) (task : Call Cluster (ObjectStream × ObjectMetadata))
        → get_elem? (map (λ b. b.get_object key) m.backends) i ≡ some task
        → task w' ≡ (ok (answer w i), w')) where
    -- An answer of one of the backends.
    abbrev IsAnswer : Result (ObjectStream × ObjectMetadata) → Type 0
    IsAnswer r = (i : ℕ) × (i < n) × (r ≡ ok (answer w i))

    from_primary :
        (b : StorageBackend Cluster) × (get_elem? m.backends m.primary_index ≡ some b)
        × (b.get_object key w' ≡ (ok (answer w m.primary_index), w'))
    from_primary =
        let (b, e) = get_elem?-some m.backends m.primary_index (rw same_length primary) in
        (
          b,
          e,
          each m.primary_index (λ x. b.get_object key x)
              (get_elem?-map (λ b. b.get_object key) m.backends m.primary_index b e),
        )

    race_answers :
        (order : List ℕ)
        → IsSchedule n order
        → IsAnswer
            (race is_no_such_key no_such_key
              (map (λ b. b.get_object key) m.backends)
              none
              order
              w').0
    unfolding race contains on_result
    race_answers [] s = absurd (ground (arith, s.covers 0))
    race_answers (i ∷ rest) s =
        let below : i < n = ground (arith, s.covers i) in
        let (b, e) = get_elem?-some m.backends i (rw same_length below) in
        let t = get_elem?-map (λ b. b.get_object key) m.backends i b e in
        (i, below, rw (t, race) (rw (each i (λ x. b.get_object key x) t, on_result) refl))

    agreed : (get_object_impl m order key all_consistent w').0 ≡ ok (answer w m.primary_index)
    unfolding get_object_impl stored
    agreed =
        let tasks = map (λ b. b.get_object key) m.backends in
        let k : length tasks ≡ n = length-map (λ b. b.get_object key) m.backends ∙ same_length in
        let joined =
          join_all_each tasks (λ i. ok (answer w i)) w' each (λ i h. cc h) order (rw k s) in
        (verify_all_consistent_etag-ok_iff m order (λ result. result.1.etag) (λ b. b.get_object key)
            w' (answer w m.primary_index) (rw same_length s)).1
          (
            tabulate (answer w) 0 n,
            ap (λ out. out.0) joined
                ∙ ap (λ x. ok (enumerate_from 0 (tabulate (λ i. ok (answer w i)) 0 x))) k
                ∙ ap (λ l. ok (enumerate_from 0 l)) (sym (map-tabulate (answer w) ok 0 n)),
            length-tabulate (answer w) 0 n ∙ sym same_length,
            (
              get_elem?-tabulate (answer w) 0 n m.primary_index primary
                  ∙ ap (λ i. some (answer w i)) (omega arith),
              All-tabulate (answer w) _ 0 n λ i. refl,
            ),
          )

    pub read_back : (mode : ReadMode) → IsAnswer (get_object_impl m order key mode w').0
    unfolding get_object_impl on_primary try_primary_fallback on_result primary race_all_backends
    read_back primary_only =
        let (b, e, h) = from_primary in
        (m.primary_index, primary, rw (e, on_primary, primary) (ap (λ out. out.0) h))
    read_back primary_fallback =
        let (b, e, h) = from_primary in
        (m.primary_index, primary, rw (e, try_primary_fallback, primary) (rw (h, on_result) refl))
    read_back best_effort = race_answers order s
    read_back all_consistent = (m.primary_index, primary, agreed)

  -- Where each store has an answer of its own, so has the GET of its backend.
  pub tasks_answer :
      (m : MultiBackend Cluster) (n : ℕ) (w w' : Cluster)
      → m.backends ≡ backends_from c 0 n
      → ((i : ℕ)
          → i < n
          → (s : InMemoryStorage) × (get_elem? w'.stores i ≡ some s)
            × (InMemory.get_object key s ≡ (ok (answer w i), s)))
      → (i : ℕ) (task : Call Cluster (ObjectStream × ObjectMetadata))
      → get_elem? (map (λ b. b.get_object key) m.backends) i ≡ some task
      → task w' ≡ (ok (answer w i), w')
  tasks_answer m n w w' backends answers i task t =
      let get = λ (now : DateTime). InMemory.get_object key in
      let t' : get_elem? (calls_from get 0 n) i ≡ some task =
        rw (← get_tasks c key 0 n) (rw (← backends) t) in
      let b : i < n =
        omega (arith, length-calls_from get 0 n, get_elem?-lt (calls_from get 0 n) i task t') in
      let (s, at_i, answered) = answers i b in
      let own : get_elem? (calls_from get 0 n) i ≡ some (on_store i get) =
        get_elem?-calls_from get 0 n i b ∙ ap (λ j. some (on_store j get)) (omega arith) in
      let same : task ≡ on_store i get = cc in
      rw same (on_store_agreed get (ok (answer w i)) w' i s at_i answered)

  -- After a PUT of a whole body in MULTI_SYNC over `n` in-memory backends, a GET of its key gives
  -- the body back in one chunk, with the metadata of this PUT at the time that one of the backends
  -- read off the clock: in every read mode, whatever the primary and the schedules of the two calls.
  pub get_object-put_object_multi_sync :
      (m : MultiBackend Cluster) (n : ℕ) (order order' : List ℕ) (w : Cluster)
      → m.backends ≡ backends_from c 0 n
      → m.write_mode ≡ multi_sync
      → m.primary_index < n
      → length w.stores ≡ n
      → IsSchedule n order
      → IsSchedule n order'
      → (i : ℕ) × (i < n)
        × ((get_object m order' key (put_object reason m order key (map ok chunks) w).1).0
            ≡ ok (ok (flatten chunks) ∷ [], (stored c (w.clock i) key (flatten chunks)).metadata))
  unfolding get_object
  get_object-put_object_multi_sync m n order order' w backends mode primary l s s' =
      let (w', put, len, after) =
        put_object_multi_sync c reason key chunks m n order w backends mode primary l s in
      let each = tasks_answer m n w w' backends λ i b.
        let (old, at_i) = get_elem?-some w.stores i (rw l b) in
        (
          (InMemory.put_object c (w.clock i) key (map ok chunks) old).1,
          after i old at_i,
          get_after_put (w.clock i) old,
        ) in
      rw put (
        read_back m n order' w w' (rw backends (length-backends_from c 0 n)) primary s' each
          m.read_mode)
