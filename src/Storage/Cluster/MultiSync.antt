-- ===== src/Storage/Cluster/MultiSync.antt =====
-- MULTI_SYNC over in-memory backends: a PUT writes every store, and any GET then finds it.
use replica_t.Common.{
  ℕ, zero, suc, ◌<◌, Text, ◌≡◌, refl, sym, ap, ◌∙◌, some, List, [], ◌∷◌, map, length, replicate,
  length-replicate, map-replicate, get_elem?-replicate, get_elem?, get_elem?-some, get_elem?-lt,
  enumerate_from, arith, subst,
}
use mathlib.Core.List.{flatten}
use replica_t.Crypto.{Crypto}
use replica_t.Config.Modes.{multi_sync}
use replica_t.Types.Error.{ok, ◌>>=◌}
use replica_t.Types.Models.{DateTime}
use replica_t.Storage.Backend.{Call, ObjectStream, Bytes}
use replica_t.Storage.Schedule.{IsSchedule, complete_spawned, join_spawned}
use replica_t.Storage.Schedule.Agreed.{in_order-replicate}
use replica_t.Storage.InMemory
use replica_t.Storage.InMemory.{InMemoryStorage, calculate_etag}
use replica_t.Storage.InMemory.Objects.{get_object-put_object}
use replica_t.Storage.Cluster.{Cluster, in_memory, on_store, backends_from}
use replica_t.Storage.Cluster.Runs.{calls_from, length-calls_from, complete_spawned-Ran}
use replica_t.Storage.MultiBackend.{MultiBackend}
use replica_t.Storage.MultiBackend.Writes.AllSucceed.{
  read_source-ok, await_tasks-map_ok, collected_primary,
}
use replica_t.Storage.MultiBackend.Writes.{
  await_tasks, collect_etags, primary_etag, broadcast_stream_to_backends, put_object,
}

module _ (c : Crypto) (key : Text) (sent : ObjectStream) where
  abbrev put_call : DateTime → Call InMemoryStorage Text
  put_call now = InMemory.put_object c now key sent

  put_tasks :
      (i n : ℕ)
      → map (λ b. b.1.put_object key sent) (enumerate_from i (backends_from c i n))
        ≡ calls_from put_call i n
  unfolding backends_from in_memory calls_from
  put_tasks i zero = refl
  put_tasks i (suc n) = ap (◌∷◌ (on_store i put_call)) (put_tasks (suc i) n)

pub length-backends_from : (c : Crypto) (i n : ℕ) → length (backends_from c i n) ≡ n
unfolding backends_from
length-backends_from c i zero = refl
length-backends_from c i (suc n) = ap suc (length-backends_from c (suc i) n)

module _ (c : Crypto) (reason : Text) (key : Text) (chunks : List Bytes) where
  abbrev body : ObjectStream
  body = map ok chunks

  abbrev etag : Text
  etag = calculate_etag c (flatten chunks)

  put_answer : (now : DateTime) (s : InMemoryStorage) → (put_call c key body now s).0 ≡ ok etag
  put_answer now s = (get_object-put_object c now key chunks key s).0

  -- The joined tasks of the broadcast, in the order of the backends.
  joined :
      (n : ℕ) (order : List ℕ) (w : Cluster)
      → length w.stores ≡ n
      → IsSchedule n order
      → (w' : Cluster) × (join_spawned (calls_from (put_call c key body) 0 n) order w
          ≡ (enumerate_from 0 (replicate n (ok etag)), w'))
        × (w'.clock ≡ w.clock)
        × (length w'.stores ≡ n)
        × ((i : ℕ) (s : InMemoryStorage)
            → get_elem? w.stores i ≡ some s
            → get_elem? w'.stores i ≡ some (put_call c key body (w.clock i) s).1)
  unfolding join_spawned
  joined n order w l s =
      let call = put_call c key body in
      let tasks = calls_from call 0 n in
      let ran =
        complete_spawned-Ran call n order w s.once (λ i h. ground (arith, s.covers i, h)) l in
      let found =
        in_order-replicate (ok etag) 0 n (complete_spawned tasks order w).0 λ j above below.
          let (t, e) = get_elem?-some w.stores j (omega arith) in
          ran.result_of j t e (rw s.covers (ground arith)) ∙ ap some (put_answer (w.clock j) t) in
      (
        (complete_spawned tasks order w).1,
        rw (length-calls_from call 0 n) (rw found),
        ran.same_clock,
        ran.same_length ∙ l,
        λ i t e.
            let b : i < n = rw (← l) (get_elem?-lt w.stores i t e) in
            ran.store_after i t e ∙ (rw s.covers (ground arith)),
      )

  broadcast_all :
      (n : ℕ) (order : List ℕ) (w w' : Cluster)
      → join_spawned (calls_from (put_call c key body) 0 n) order w
        ≡ (enumerate_from 0 (replicate n (ok etag)), w')
      → broadcast_stream_to_backends reason
          (enumerate_from 0 (backends_from c 0 n))
          key
          body
          order
          w
        ≡ (ok (enumerate_from 0 (replicate n (ok etag))), w', [])
  unfolding broadcast_stream_to_backends
  broadcast_all n order w w' h =
      let results : map ok (replicate n etag) ≡ replicate n (ok etag) = map-replicate ok n etag in
      let names : await_tasks reason (enumerate_from 0 (replicate n (ok etag)))
            (map (λ b. b.0) (enumerate_from 0 (backends_from c 0 n)))
          ≡ ok (enumerate_from 0 (replicate n (ok etag))) =
        subst
          (λ rs.
            await_tasks reason (enumerate_from 0 rs)
              (map (λ b. b.0) (enumerate_from 0 (backends_from c 0 n)))
            ≡ ok (enumerate_from 0 rs))
          results
          (await_tasks-map_ok reason 0 (replicate n etag) (backends_from c 0 n)
            (length-replicate n etag ∙ sym (length-backends_from c 0 n))) in
      rw (read_source-ok chunks) (rw (put_tasks c key body 0 n) (rw h (rw names)))

  -- A PUT of a whole body in MULTI_SYNC over `n` in-memory backends returns the body's ETag and
  -- leaves no task behind; every store is as after a PUT of its own, at what its backend reads off the
  -- clock. The schedule of the concurrent tasks does not show in the stores.
  pub put_object_multi_sync :
      (m : MultiBackend Cluster) (n : ℕ) (order : List ℕ) (w : Cluster)
      → m.backends ≡ backends_from c 0 n
      → m.write_mode ≡ multi_sync
      → m.primary_index < n
      → length w.stores ≡ n
      → IsSchedule n order
      → (w' : Cluster) × (put_object reason m order key body w ≡ (ok etag, w', []))
        × (length w'.stores ≡ n)
        × ((i : ℕ) (s : InMemoryStorage)
            → get_elem? w.stores i ≡ some s
            → get_elem? w'.stores i ≡ some (InMemory.put_object c (w.clock i) key body s).1)
  unfolding put_object
  put_object_multi_sync m n order w backends mode primary l s =
      let (w', h, clock, len, stores) = joined n order w l s in
      let sent = broadcast_all n order w w' h in
      let collected : collect_etags (replicate n []) (enumerate_from 0 (replicate n (ok etag)))
            >>= primary_etag m.primary_index
          ≡ ok etag =
        ap
          (λ rs.
            collect_etags (replicate n []) (enumerate_from 0 rs) >>= primary_etag m.primary_index)
          (sym (map-replicate ok n etag))
        ∙ collected_primary n m.primary_index (replicate n etag) etag (length-replicate n etag)
            (get_elem?-replicate n m.primary_index etag primary) in
      (
        w',
        rw mode (rw backends (rw (sent, length-backends_from c 0 n) (rw collected))),
        len,
        stores,
      )
