-- ===== src/Tests/Buckets.antt =====
-- Backends over S3 buckets.
use replica_t.Common.{ℕ, suc, ◌*◌, ◌≤◌, length, text, some, [], ◌∷◌, ◌≡◌, ◌⊎◌, refl, arith}
use replica_t.Config.Modes.{primary_fallback, multi_sync}
use replica_t.Types.Error.{ok, err, returned, failed, display, error_code, message}
use replica_t.Storage.Backend.{ObjectStream}
use replica_t.Storage.MultiBackend.{MultiBackend, primary}
use replica_t.Storage.MultiBackend.Reads.{get_object_impl, head_object_impl, head_bucket_impl}
use replica_t.Storage.S3.{S3Backend, S3Client, s3_storage, head_bucket, head_object, get_object}
use replica_t.Storage.S3.Errors.{reads_no_fallback}
use replica_t.Storage.S3.StreamBody.{capacity, forward_error, forwarded, Channel, new, Step}
use replica_t.Storage.S3.StreamBody.Delivery.{Run, IsDone, Run-forwarded}
use replica_t.Tests.Data.{crypto, now, key, broken, answering, metadata}
use replica_t.Tests.Web.{chrono}

-- A bucket that is not reached; the calls are counted.
abbrev unreachable : S3Client ℕ
unreachable = record {
  head_bucket = λ b w. (failed (text "timeout"), suc w);
  list_objects_v2 = λ b p n w. (failed (text "timeout"), suc w);
  head_object = λ b k w. (failed (text "timeout"), suc w);
  get_object = λ b k w. (failed (text "timeout"), suc w);
  put_object = λ b k body w. (failed (text "timeout"), suc w);
  delete_object = λ b k w. (failed (text "timeout"), suc w);
}

abbrev pub bucket : S3Backend ℕ
bucket = record { client = unreachable; bucket = text "b"; name = text "s3" }

-- The other backend has the object.
abbrev behind_s3 : MultiBackend ℕ
behind_s3 = record {
  backends = s3_storage crypto chrono now bucket ∷ answering (ok (metadata [])) ∷ [];
  primary_index = 0;
  read_mode = primary_fallback;
  write_mode = multi_sync;
}

primary_is_s3 : primary behind_s3 ≡ some (s3_storage crypto chrono now bucket)
unfolding primary
primary_is_s3 = refl

reads_no_fallback_example :
    (head_bucket_impl behind_s3 [] primary_fallback 0 ≡ head_bucket crypto chrono now bucket 0)
    × (head_object_impl behind_s3 [] key primary_fallback 0
        ≡ head_object crypto chrono now bucket key 0)
    × (get_object_impl behind_s3 [] key primary_fallback 0
        ≡ get_object crypto chrono now bucket key 0)
reads_no_fallback_example =
    reads_no_fallback crypto chrono now bucket behind_s3 primary_is_s3 [] key 0

abbrev stream : ObjectStream
stream = ok (1 ∷ []) ∷ err broken ∷ []

-- The first item is polled after both are sent.
abbrev after_three : Channel
after_three = record {
  unread = [];
  queue = failed (text "Stream error: InternalError: Internal Error: down") ∷ [];
  polled = returned (1 ∷ []) ∷ [];
}

three_steps : Run (new stream) 3 after_three
unfolding new forward_error text display error_code message
three_steps =
    Run.step
      (Run.step (Run.step Run.stop (Step.send (1 ∷ []) (err broken ∷ []) [] [] (omega arith)))
        (Step.send_error broken [] (returned (1 ∷ []) ∷ []) [] (omega arith)))
      (Step.poll (returned (1 ∷ [])) []
        (failed (text "Stream error: InternalError: Internal Error: down") ∷ []) [])

Run-forwarded_example :
    (length after_three.queue ≤ capacity)
    × (3 ≤ 2 * length stream)
    × ((IsDone after_three × (after_three.polled ≡ forwarded stream))
        ⊎ ((u : Channel) × Step after_three u))
Run-forwarded_example = Run-forwarded stream 3 after_three three_steps
