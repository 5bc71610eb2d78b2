-- ===== src/Storage/MultiBackend/Writes/AllSucceed.antt =====
-- put_object.rs in the mode MULTI_SYNC, over what the tasks of the backends return.
use replica_t.Common.{
  ℕ, zero, suc, ◌+◌, ◌≤◌, ◌<◌, Text, ◌≡◌, ◌↔◌, refl, sym, ap, ◌∙◌, subst, none, some, List, [], ◌∷◌,
  map, set, length, length-set, length-map, length-replicate, replicate as copies, get_elem?,
  get_elem?-some, get_elem?-lt, get_elem?-set_self, get_elem?-set_ne, enumerate_from, arith,
}
use replica_t.Types.Error.{Result, ok, err, panic, ◌>>=◌, bind-eq-ok}
use replica_t.Storage.Backend.{Bytes, ObjectStream, Call}
use replica_t.Storage.Schedule.{IsSchedule, join_spawned}
use replica_t.Storage.Schedule.Spawned.{join_spawned-enumerate_from}
use replica_t.Storage.MultiBackend.Jobs.{read_source, finished}
use replica_t.Storage.MultiBackend.{MultiBackend}
use replica_t.Storage.MultiBackend.Writes.{
  await_tasks, collect_etags, primary_etag, broadcast_stream_to_backends,
  put_object_multi_sync_streaming,
}

-- A body whose chunks all arrive is sent whole.
pub read_source-ok : (chunks : List Bytes) → read_source (map ok chunks) ≡ (map ok chunks, finished)
unfolding read_source
read_source-ok [] = refl
read_source-ok (c ∷ chunks) = rw (read_source-ok chunks)

map-enumerate_from :
    {A B : Type 0} (f : A → B) (i : ℕ) (l : List A)
    → map (λ b. f b.1) (enumerate_from i l) ≡ map f l
map-enumerate_from f i [] = refl
map-enumerate_from f i (x ∷ l) = ap (◌∷◌ (f x)) (map-enumerate_from f (suc i) l)

module _ {B : Type 0} (reason : Text) where
  -- Tasks that are awaited without a panic give their results.
  await_tasks-eq-ok :
      (i : ℕ) (rs : List (Result Text)) (bs : List B) (out : List (ℕ × Result Text))
      → length rs ≡ length bs
      → await_tasks reason (enumerate_from i rs) (map (λ b. b.0) (enumerate_from i bs)) ≡ ok out
      → out ≡ enumerate_from i rs
  unfolding await_tasks
  await_tasks-eq-ok i [] bs out l h = cc h
  await_tasks-eq-ok i (r ∷ rs) [] out l h = absurd (omega arith)
  await_tasks-eq-ok i (ok e ∷ rs) (b ∷ bs) out l h =
      let (rest, x, y) = bind-eq-ok _ _ h in
      let z = await_tasks-eq-ok (suc i) rs bs rest (omega arith) x in cc (y, z)
  await_tasks-eq-ok i (err e ∷ rs) (b ∷ bs) out l h =
      let (rest, x, y) = bind-eq-ok _ _ h in
      let z = await_tasks-eq-ok (suc i) rs bs rest (omega arith) x in cc (y, z)
  await_tasks-eq-ok i (panic ∷ rs) (b ∷ bs) out l h = cc h

  pub await_tasks-map_ok :
      (i : ℕ) (answers : List Text) (bs : List B)
      → length answers ≡ length bs
      → await_tasks reason
          (enumerate_from i (map ok answers))
          (map (λ b. b.0) (enumerate_from i bs))
        ≡ ok (enumerate_from i (map ok answers))
  unfolding await_tasks
  await_tasks-map_ok i [] bs l = refl
  await_tasks-map_ok i (a ∷ answers) [] l = absurd (omega arith)
  await_tasks-map_ok i (a ∷ answers) (b ∷ bs) l =
      rw (await_tasks-map_ok (suc i) answers bs (omega arith)) refl

-- Results that are accepted are those of a list of successes.
collect_etags-eq-ok :
    (i : ℕ) (rs : List (Result Text)) (etags out : List Text)
    → collect_etags etags (enumerate_from i rs) ≡ ok out
    → (answers : List Text) × (rs ≡ map ok answers)
unfolding collect_etags
collect_etags-eq-ok i [] etags out h = ([], refl)
collect_etags-eq-ok i (ok e ∷ rs) etags out h =
    let (answers, x) = collect_etags-eq-ok (suc i) rs (set etags i e) out h in
    (e ∷ answers, ap (◌∷◌ (ok e)) x)
collect_etags-eq-ok i (err e ∷ rs) etags out h = absurd (ground (arith, h))
collect_etags-eq-ok i (panic ∷ rs) etags out h = absurd (ground (arith, h))

-- Each success ends up at its backend's place.
collect_etags-get_elem? :
    (i : ℕ) (answers etags : List Text)
    → i + length answers ≤ length etags
    → (out : List Text) × (collect_etags etags (enumerate_from i (map ok answers)) ≡ ok out)
      × ((p : ℕ) → p < i → get_elem? out p ≡ get_elem? etags p)
      × ((k : ℕ) → k < length answers → get_elem? out (i + k) ≡ get_elem? answers k)
unfolding collect_etags
collect_etags-get_elem? i [] etags h = (etags, refl, λ p b. refl, λ k b. absurd (omega arith))
collect_etags-get_elem? i (a ∷ answers) etags h =
    let (out, x, below, at) =
      collect_etags-get_elem? (suc i) answers (set etags i a)
        (omega (arith, length-set etags i a)) in
    (
      out,
      x,
      λ p b. below p (omega arith) ∙ get_elem?-set_ne etags i p a (λ q. absurd (omega arith)),
      λ k b. placed out below at k b,
    )
  where
    placed :
        (out : List Text)
        → ((p : ℕ) → p < suc i → get_elem? out p ≡ get_elem? (set etags i a) p)
        → ((k : ℕ) → k < length answers → get_elem? out (suc i + k) ≡ get_elem? answers k)
        → (k : ℕ) → k < suc (length answers)
        → get_elem? out (i + k) ≡ get_elem? (a ∷ answers) k
    placed out below at zero b =
        let e : i + 0 ≡ i = omega arith in
        rw e (below i (omega arith) ∙ get_elem?-set_self etags i a (omega arith))
    placed out below at (suc k) b =
        let e : i + suc k ≡ suc i + k = omega arith in rw e (at k (omega arith))

-- On as many successes as backends, the call returns the primary's.
pub collected_primary :
    (n p : ℕ) (answers : List Text) (a : Text)
    → length answers ≡ n
    → get_elem? answers p ≡ some a
    → collect_etags (copies n []) (enumerate_from 0 (map ok answers)) >>= primary_etag p ≡ ok a
unfolding primary_etag
collected_primary n p answers a l h =
    let (out, x, below, at) =
      collect_etags-get_elem? 0 answers (copies n [])
        (omega (arith, length-replicate {A = Text} n [])) in
    let zero_plus : 0 + p ≡ p = omega arith in
    let e : get_elem? out p ≡ some a =
      subst (λ q. get_elem? out q ≡ get_elem? answers p) zero_plus
        (at p (get_elem?-lt answers p a h))
      ∙ h in
    ap (λ r. r >>= primary_etag p) x ∙ ap (λ o. elim o [ none ↦ panic | some e ↦ ok e ]) e

module _ {W : Type 0} (reason : Text) (m : MultiBackend W) (key : Text) (chunks : List Bytes)
    (order : List ℕ) where
  abbrev body : ObjectStream
  body = map ok chunks

  abbrev tasks : List (Call W Text)
  tasks = map (λ b. b.put_object key body) m.backends

  broadcast_results :
      (w : W)
      → (broadcast_stream_to_backends reason (enumerate_from 0 m.backends) key body order w).0
        ≡ await_tasks reason
            (join_spawned tasks order w).0
            (map (λ b. b.0) (enumerate_from 0 m.backends))
  unfolding broadcast_stream_to_backends
  broadcast_results w = rw (read_source-ok chunks) (
      ap
        (λ ts.
          await_tasks reason (join_spawned ts order w).0
            (map (λ b. b.0) (enumerate_from 0 m.backends)))
        (map-enumerate_from (λ b. b.put_object key body) 0 m.backends))

  abbrev collected : Result (List (ℕ × Result Text)) → Result Text
  collected results = results >>= λ rs.
      collect_etags (copies (length m.backends) []) rs >>= primary_etag m.primary_index

  -- Under a schedule of all the tasks, and with the primary index in bounds: a PUT of a whole body
  -- in MULTI_SYNC returns an ETag exactly if the task of each backend returned one, and it is the
  -- one that the primary returned.
  pub put_object_multi_sync_streaming-ok_iff :
      (w : W) (a : Text)
      → m.primary_index < length m.backends
      → IsSchedule (length m.backends) order
      → ((put_object_multi_sync_streaming reason m key body order w).0 ≡ ok a) ↔ (
          (answers : List Text) × ((join_spawned tasks order w).0
            ≡ enumerate_from 0 (map ok answers))
          × (length answers ≡ length m.backends)
          × (get_elem? answers m.primary_index ≡ some a))
  unfolding put_object_multi_sync_streaming
  put_object_multi_sync_streaming-ok_iff w a b s = (
    λ h.
        let (rs, e, l) =
          join_spawned-enumerate_from tasks order w
            (rw (length-map (λ b. b.put_object key body) m.backends) s) in
        let n : length rs ≡ length m.backends =
          l ∙ length-map (λ b. b.put_object key body) m.backends in
        let (out, awaited, k) = bind-eq-ok _ _ (ap collected (sym (broadcast_results w)) ∙ h) in
        let (etags, gathered, at) = bind-eq-ok _ _ k in
        let same : out ≡ enumerate_from 0 rs = await_tasks-eq-ok reason 0 rs m.backends out n (
          ap (λ x. await_tasks reason x (map (λ b. b.0) (enumerate_from 0 m.backends))) (sym e)
          ∙ awaited) in
        let (answers, f) =
          collect_etags-eq-ok 0 rs (copies (length m.backends) []) etags
            (ap (collect_etags (copies (length m.backends) [])) (sym same) ∙ gathered) in
        let count : length answers ≡ length m.backends =
          sym (length-map ok answers) ∙ ap length (sym f) ∙ n in
        let (x, found) = get_elem?-some answers m.primary_index (rw count b) in
        let result : collected (ok (enumerate_from 0 (map ok answers))) ≡ ok a =
          ap (λ l. collected (ok (enumerate_from 0 l))) (sym f)
          ∙ ap (λ l. collected (ok l)) (sym same)
          ∙ ap collected (sym awaited)
          ∙ ap collected (sym (broadcast_results w))
          ∙ h in
        let first : collected (ok (enumerate_from 0 (map ok answers))) ≡ ok x =
          collected_primary (length m.backends) m.primary_index answers x count found in
        let equal : x ≡ a = ground (arith, first, result) in
        (answers, rw (← f) e, count, found ∙ ap some equal),
    λ (answers, e, l, at).
        ap collected (
          broadcast_results w
          ∙ ap (λ x. await_tasks reason x (map (λ b. b.0) (enumerate_from 0 m.backends))) e
          ∙ await_tasks-map_ok reason 0 answers m.backends l)
        ∙ collected_primary (length m.backends) m.primary_index answers a l at,
  )
