-- ===== src/Storage/S3/StreamBody.antt =====
-- storage/s3.rs: `StreamBody`, which hands the stream of a PUT to the SDK through a channel. A
-- spawned task reads the stream and sends; the SDK polls the receiver; the two interleave.
pub mod Delivery
use replica_t.Common.{
  ℕ, zero, suc, ◌+◌, ◌*◌, ◌≤◌, ◌<◌, Text, text, length, length-append, List, [], ◌∷◌, ◌++◌,
  append_assoc, ◌≡◌, ◌≢◌, ◌⊎◌, inl, inr, refl, ap, sym, ◌∙◌, arith,
}
use mathlib.Core.List.{append-nil}
use replica_t.Types.Error.{display, S3Error, Result, ok, err, panic, Tried, returned, failed}
use replica_t.Storage.Backend.{Bytes, ObjectStream}

-- What the channel holds before the sender waits.
abbrev pub capacity : ℕ
capacity = 256

-- `map_err` of the task.
unfoldable pub forward_error : S3Error → Tried Bytes
forward_error e = failed (text "Stream error: " ++ display e)

-- The frames of the body. A task that unwinds drops the sender, which ends the body.
unfoldable pub forwarded : ObjectStream → List (Tried Bytes)
unfolding forward_error
forwarded [] = []
forwarded (ok b ∷ rest) = returned b ∷ forwarded rest
forwarded (err e ∷ rest) = forward_error e ∷ forwarded rest
forwarded (panic ∷ rest) = []

-- The stream that the task has not read, the items in the channel, and those the SDK has polled.
pub record Channel : Type 0 where
  pub unread : ObjectStream
  pub queue : List (Tried Bytes)
  pub polled : List (Tried Bytes)

-- `StreamBody::new`
unfoldable pub new : ObjectStream → Channel
new stream = record { unread = stream; queue = []; polled = [] }

pub data Step : Channel → Channel → Type 0 where
  send :
      (b : Bytes) (u : ObjectStream) (q d : List (Tried Bytes))
      → length q < capacity
      → Step
          (record { unread = ok b ∷ u; queue = q; polled = d })
          (record { unread = u; queue = q ++ returned b ∷ []; polled = d })
  send_error :
      (e : S3Error) (u : ObjectStream) (q d : List (Tried Bytes))
      → length q < capacity
      → Step
          (record { unread = err e ∷ u; queue = q; polled = d })
          (record { unread = u; queue = q ++ forward_error e ∷ []; polled = d })
  unwind :
      (u : ObjectStream) (q d : List (Tried Bytes))
      → Step
          (record { unread = panic ∷ u; queue = q; polled = d })
          (record { unread = []; queue = q; polled = d })
  poll :
      (x : Tried Bytes) (u : ObjectStream) (q d : List (Tried Bytes))
      → Step
          (record { unread = u; queue = x ∷ q; polled = d })
          (record { unread = u; queue = q; polled = d ++ x ∷ [] })
