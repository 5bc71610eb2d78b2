-- ===== src/Storage/Cluster/Deleted.antt =====
-- MULTI_SYNC over in-memory backends: a DELETE removes the object from every store, and reads then
-- find it absent.
use replica_t.Common.{
  ℕ, zero, suc, ◌<◌, Text, text_eq_refl, ◌≡◌, refl, ◌∙◌, true, some, List, [], map, length,
  replicate, get_elem?, get_elem?-some, get_elem?-lt, enumerate_from, arith, subst,
}
use replica_t.Crypto.{Crypto}
use replica_t.Config.Modes.{multi_sync}
use replica_t.Types.Error.{ok, err, no_such_key}
use replica_t.Types.Models.{DateTime}
use replica_t.Storage.Backend.{Call}
use replica_t.Storage.HashMap.{get-remove}
use replica_t.Storage.Schedule.{contains, IsSchedule, complete_spawned, join_all, order_results}
use replica_t.Storage.Schedule.Agreed.{AllGive, in_order-replicate}
use replica_t.Storage.InMemory
use replica_t.Storage.InMemory.{InMemoryStorage}
use replica_t.Storage.Cluster.{Cluster, in_memory, backends_from}
use replica_t.Storage.Cluster.Runs.{
  calls_from, backend_tasks, length-calls_from, complete_spawned-Ran, complete-complete_spawned,
}
use replica_t.Storage.Cluster.MultiSync.{length-backends_from}
use replica_t.Storage.Cluster.ReadBack.{get_tasks, calls_agreed}
use replica_t.Storage.MultiBackend.{MultiBackend}
use replica_t.Storage.MultiBackend.Reads.{head_object, get_object}
use replica_t.Storage.MultiBackend.Deletes.{check_deletes, delete_object}
use replica_t.Storage.MultiBackend.Utils.Absent.{
  absent_error, get_object_absent, head_object_absent,
}

check_deletes-replicate : (i n : ℕ) → check_deletes (enumerate_from i (replicate n (ok tt))) ≡ ok tt
unfolding check_deletes
check_deletes-replicate i zero = refl
check_deletes-replicate i (suc n) = check_deletes-replicate (suc i) n

module _ (key : Text) where
  abbrev delete_call : DateTime → Call InMemoryStorage (Unit {0})
  delete_call now = InMemory.delete_object key

  delete_tasks :
      (c : Crypto) (i n : ℕ)
      → map (λ b. b.delete_object key) (backends_from c i n) ≡ calls_from delete_call i n
  unfolding in_memory
  delete_tasks c = backend_tasks delete_call c (λ b. b.delete_object key) (λ i. refl)

  pub head_tasks :
      (c : Crypto) (i n : ℕ)
      → map (λ b. b.head_object key) (backends_from c i n)
        ≡ calls_from (λ now. InMemory.head_object key) i n
  unfolding in_memory
  head_tasks c =
      backend_tasks (λ now. InMemory.head_object key) c (λ b. b.head_object key) (λ i. refl)

  -- The joined deletions, in the order of the backends.
  joined :
      (n : ℕ) (order : List ℕ) (w : Cluster)
      → length w.stores ≡ n
      → IsSchedule n order
      → (w' : Cluster) × (join_all (calls_from delete_call 0 n) order w
          ≡ (ok (enumerate_from 0 (replicate n (ok tt))), w'))
        × (w'.clock ≡ w.clock)
        × (length w'.stores ≡ n)
        × ((i : ℕ) (s : InMemoryStorage)
            → get_elem? w.stores i ≡ some s
            → get_elem? w'.stores i ≡ some (InMemory.delete_object key s).1)
  unfolding join_all InMemory.delete_object
  joined n order w l s =
      let tasks = calls_from delete_call 0 n in
      let bounded : (i : ℕ) → contains i order ≡ true → i < n =
        λ i h. ground (arith, s.covers i, h) in
      let ran = complete_spawned-Ran delete_call n order w s.once bounded l in
      let run = complete-complete_spawned delete_call n order w (λ now t. λ h. cc) bounded l in
      let found = in_order-replicate (ok tt) 0 n (complete_spawned tasks order w).0 λ j above below.
        let (t, e) = get_elem?-some w.stores j (omega arith) in
        ran.result_of j t e (rw s.covers (ground arith)) in
      (
        (complete_spawned tasks order w).1,
        rw (run, order_results) (rw (length-calls_from delete_call 0 n) (rw found)),
        ran.same_clock,
        ran.same_length ∙ l,
        λ i t e.
            let b : i < n = rw (← l) (get_elem?-lt w.stores i t e) in
            ran.store_after i t e ∙ (rw s.covers (ground arith)),
      )

  -- A store without the key.
  get_after_delete :
      (s : InMemoryStorage)
      → InMemory.get_object key (InMemory.delete_object key s).1
        ≡ (err no_such_key, (InMemory.delete_object key s).1)
  unfolding InMemory.get_object InMemory.delete_object
  get_after_delete s = ground (arith, text_eq_refl key, get-remove key key s)

  head_after_delete :
      (s : InMemoryStorage)
      → InMemory.head_object key (InMemory.delete_object key s).1
        ≡ (err no_such_key, (InMemory.delete_object key s).1)
  unfolding InMemory.head_object InMemory.delete_object
  head_after_delete s = ground (arith, text_eq_refl key, get-remove key key s)

  module _ (c : Crypto) (m : MultiBackend Cluster) (n : ℕ) (w : Cluster)
      (backends : m.backends ≡ backends_from c 0 n) (primary : m.primary_index < n)
      (l : length w.stores ≡ n) where
    -- Reads of stores that have all lost the key.
    reads_deleted :
        (order : List ℕ)
        → IsSchedule n order
        → ((i : ℕ) (t : InMemoryStorage)
            → get_elem? w.stores i ≡ some t
            → (s : InMemoryStorage) × (t ≡ (InMemory.delete_object key s).1))
        → (head_object m order key w ≡ (err (absent_error n m.read_mode), w))
          × (get_object m order key w ≡ (err (absent_error n m.read_mode), w))
    reads_deleted order s lost =
        let same : length m.backends ≡ n = rw backends (length-backends_from c 0 n) in
        let gets : AllGive (calls_from (λ now. InMemory.get_object key) 0 n) (err no_such_key) w =
          calls_agreed (λ now. InMemory.get_object key) (err no_such_key) w n l
            λ i t e. let (old, h) = lost i t e in rw h (get_after_delete old) in
        let heads : AllGive (calls_from (λ now. InMemory.head_object key) 0 n) (err no_such_key) w =
          calls_agreed (λ now. InMemory.head_object key) (err no_such_key) w n l
            λ i t e. let (old, h) = lost i t e in rw h (head_after_delete old) in
        subst
          (λ k.
            (head_object m order key w ≡ (err (absent_error k m.read_mode), w))
            × (get_object m order key w ≡ (err (absent_error k m.read_mode), w)))
          same
          (
            head_object_absent m order w (rw same primary) (rw same s) key
                (rw backends (rw (head_tasks c 0 n) heads)),
            get_object_absent m order w (rw same primary) (rw same s) key
                (rw backends (rw (get_tasks c key 0 n) gets)),
          )

  -- A DELETE in MULTI_SYNC over `n` in-memory backends is a DELETE of each store.
  pub delete_object_multi_sync_lem :
      (c : Crypto) (m : MultiBackend Cluster) (n : ℕ) (order : List ℕ) (w : Cluster)
      → m.backends ≡ backends_from c 0 n
      → m.write_mode ≡ multi_sync
      → length w.stores ≡ n
      → IsSchedule n order
      → (w' : Cluster) × (delete_object m order key w ≡ (ok tt, w', []))
        × (w'.clock ≡ w.clock)
        × (length w'.stores ≡ n)
        × ((i : ℕ) (s : InMemoryStorage)
            → get_elem? w.stores i ≡ some s
            → get_elem? w'.stores i ≡ some (InMemory.delete_object key s).1)
  unfolding delete_object
  delete_object_multi_sync_lem c m n order w backends mode l s =
      let (w', h, clock, len, after) = joined n order w l s in
      (
        w',
        rw mode (rw backends (rw (delete_tasks c 0 n) (rw h (rw (check_deletes-replicate 0 n))))),
        clock,
        len,
        after,
      )

  -- A DELETE in MULTI_SYNC over `n` in-memory backends succeeds and leaves no task behind, whether
  -- or not they hold the object; every store is as after a DELETE of its own, and the clock as it
  -- was. A HEAD or a GET of the key that comes next ends with NoSuchKey in every read mode but
  -- ALL_CONSISTENT, which ends with an InternalError that says that no backend succeeded. The
  -- schedules of the calls do not show. The primary index is below `n`.
  pub reads-delete_object_multi_sync :
      (c : Crypto) (m : MultiBackend Cluster) (n : ℕ) (order order' : List ℕ) (w : Cluster)
      → m.backends ≡ backends_from c 0 n
      → m.write_mode ≡ multi_sync
      → m.primary_index < n
      → length w.stores ≡ n
      → IsSchedule n order
      → IsSchedule n order'
      → (w' : Cluster) × (delete_object m order key w ≡ (ok tt, w', []))
        × (w'.clock ≡ w.clock)
        × ((i : ℕ) (s : InMemoryStorage)
            → get_elem? w.stores i ≡ some s
            → get_elem? w'.stores i ≡ some (InMemory.delete_object key s).1)
        × (head_object m order' key w' ≡ (err (absent_error n m.read_mode), w'))
        × (get_object m order' key w' ≡ (err (absent_error n m.read_mode), w'))
  reads-delete_object_multi_sync c m n order order' w backends mode primary l s s' =
      let (w', sent, clock, len, after) =
        delete_object_multi_sync_lem c m n order w backends mode l s in
      let lost : (i : ℕ) (t : InMemoryStorage)
          → get_elem? w'.stores i ≡ some t
          → (s : InMemoryStorage) × (t ≡ (InMemory.delete_object key s).1) =
        λ i t e.
          let (old, at_i) =
            get_elem?-some w.stores i (omega (arith, get_elem?-lt w'.stores i t e)) in
          let at_i' = after i old at_i in (old, cc) in
      let reads = reads_deleted c m n w' backends primary len order' s' lost in
      (w', sent, clock, after, reads.0, reads.1)
