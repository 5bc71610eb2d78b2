-- ===== src/Storage/S3/StreamBody/Delivery.antt =====
-- What the channel of storage/s3.rs delivers, whatever the interleaving of its two ends.
use replica_t.Common.{
  ℕ, suc, ◌+◌, ◌*◌, ◌≤◌, ◌<◌, length, length-append, List, [], ◌∷◌, ◌++◌, append_assoc, ◌≡◌, ◌⊎◌,
  inl, inr, refl, ap, sym, ◌∙◌, arith,
}
use mathlib.Core.List.{append-nil}
use replica_t.Types.Error.{ok, err, panic, Tried, returned}
use replica_t.Storage.Backend.{Bytes, ObjectStream}
use replica_t.Storage.S3.StreamBody.{capacity, forward_error, forwarded, Channel, new, Step}

-- Steps, in a row, and how many.
pub data Run (s : Channel) : ℕ → Channel → Type 0 where
  stop : Run s 0 s
  step : {n : ℕ} {t u : Channel} → Run s n t → Step t u → Run s (suc n) u

-- All that was, is and will be delivered.
abbrev pub contents : Channel → List (Tried Bytes)
contents s = s.polled ++ (s.queue ++ forwarded s.unread)

-- Steps that are left: an item of the stream has two, an item of the channel one.
abbrev pub work : Channel → ℕ
work s = 2 * length s.unread + length s.queue

abbrev pub IsDone : Channel → Type 0
IsDone s = (s.unread ≡ []) × (s.queue ≡ [])

Step-contents : {s t : Channel} → Step s t → contents s ≡ contents t
unfolding forwarded
Step-contents (Step.send b u q d h) =
    ap (λ r. d ++ r) (sym (append_assoc q (returned b ∷ []) (forwarded u)))
Step-contents (Step.send_error e u q d h) =
    ap (λ r. d ++ r) (sym (append_assoc q (forward_error e ∷ []) (forwarded u)))
Step-contents (Step.unwind u q d) = refl
Step-contents (Step.poll x u q d) = sym (append_assoc d (x ∷ []) (q ++ forwarded u))

Step-work : {s t : Channel} → Step s t → work t < work s
Step-work (Step.send b u q d h) = omega (arith, length-append q (returned b ∷ []))
Step-work (Step.send_error e u q d h) = omega (arith, length-append q (forward_error e ∷ []))
Step-work (Step.unwind u q d) = omega arith
Step-work (Step.poll x u q d) = omega arith

Step-capacity : {s t : Channel} → Step s t → length s.queue ≤ capacity → length t.queue ≤ capacity
Step-capacity (Step.send b u q d h) k = omega (arith, length-append q (returned b ∷ []))
Step-capacity (Step.send_error e u q d h) k = omega (arith, length-append q (forward_error e ∷ []))
Step-capacity (Step.unwind u q d) k = k
Step-capacity (Step.poll x u q d) k = omega arith

Run-contents : {s t : Channel} {n : ℕ} → Run s n t → contents s ≡ contents t
Run-contents Run.stop = refl
Run-contents (Run.step r e) = Run-contents r ∙ Step-contents e

Run-work : {s t : Channel} {n : ℕ} → Run s n t → n + work t ≤ work s
Run-work Run.stop = omega arith
Run-work (Run.step r e) = omega (arith, Run-work r, Step-work e)

Run-capacity :
    {s t : Channel} {n : ℕ} → Run s n t → length s.queue ≤ capacity → length t.queue ≤ capacity
Run-capacity Run.stop k = k
Run-capacity (Run.step r e) k = Step-capacity e (Run-capacity r k)

progress_at :
    (u : ObjectStream) (q d : List (Tried Bytes))
    → IsDone (record { unread = u; queue = q; polled = d })
      ⊎ ((t : Channel) × Step (record { unread = u; queue = q; polled = d }) t)
progress_at [] [] d = inl (refl, refl)
progress_at u (x ∷ q) d = inr (_, Step.poll x u q d)
progress_at (ok b ∷ u) [] d = inr (_, Step.send b u [] d (omega arith))
progress_at (err e ∷ u) [] d = inr (_, Step.send_error e u [] d (omega arith))
progress_at (panic ∷ u) [] d = inr (_, Step.unwind u [] d)

done-polled : (s : Channel) → IsDone s → contents s ≡ s.polled
unfolding forwarded
done-polled s (no_item, no_queue) = rw (no_item, no_queue) (append-nil s.polled)

-- However the task and the SDK interleave: at most 256 items wait in the channel, a run takes at
-- most two steps for each item of the stream, a channel that has not delivered all can make a step,
-- and one that is done has delivered exactly the frames of the stream, in order.
pub Run-forwarded :
    (stream : ObjectStream) (n : ℕ) (t : Channel)
    → Run (new stream) n t
    → (length t.queue ≤ capacity)
      × (n ≤ 2 * length stream)
      × ((IsDone t × (t.polled ≡ forwarded stream)) ⊎ ((u : Channel) × Step t u))
unfolding new
Run-forwarded stream n t r = (
  Run-capacity r (omega arith),
  omega (arith, Run-work r),
  elim (progress_at t.unread t.queue t.polled) [
    | inl done ↦ inl (done, sym (Run-contents r ∙ done-polled t done))
    | inr next ↦ inr next
  ],
)
