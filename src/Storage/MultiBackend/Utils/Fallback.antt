-- ===== src/Storage/MultiBackend/Utils/Fallback.antt =====
-- `try_primary_fallback` of utils.rs, and HEAD's own loop, against what a fallback read means.
use replica_t.Common.{
  ◌≡◌, refl, ◌⊎◌, inl, inr, Bool, true, false, some, List, [], ◌∷◌, arith, Text, Option-cases,
  if◌then◌else◌,
}
use replica_t.Types.Error.{Result, S3Error, ok, err, panic, no_such_key}
use replica_t.Types.Models.{ObjectMetadata}
use replica_t.Storage.Backend.{StorageBackend}
use replica_t.Storage.MultiBackend.{MultiBackend, primary, other_backends}
use replica_t.Storage.MultiBackend.Utils.{Operation, on_result, try_others, try_primary_fallback}
use replica_t.Storage.MultiBackend.Reads.{is_no_such_key, head_others, head_object_primary_fallback}

module _ {W A : Type 0} (operation : Operation W A) where
  -- Every backend of the list, asked in turn, returns an error; the world goes from `w` to `w'`.
  pub data AllFail (w' : W) : List (StorageBackend W) → W → Type 0 where
    none_left : AllFail w' [] w'
    fails :
        {b : StorageBackend W} {bs : List (StorageBackend W)} {w w1 : W} (e : S3Error)
        → operation b w ≡ (err e, w1)
        → AllFail w' bs w1
        → AllFail w' (b ∷ bs) w

  -- The first backend of the list that does not fail answers with `r`, and leaves the world `w'`.
  pub data FirstAnswer (r : Result A) (w' : W) : List (StorageBackend W) → W → Type 0 where
    answers :
        {b : StorageBackend W} {bs : List (StorageBackend W)} {w : W}
        → operation b w ≡ (r, w')
        → ((e : S3Error) → ¬ (r ≡ err e))
        → FirstAnswer r w' (b ∷ bs) w
    fails_first :
        {b : StorageBackend W} {bs : List (StorageBackend W)} {w w1 : W} (e : S3Error)
        → operation b w ≡ (err e, w1)
        → FirstAnswer r w' bs w1
        → FirstAnswer r w' (b ∷ bs) w

  abbrev Searched : S3Error → List (StorageBackend W) → W → Result A × W → Type 0
  Searched d bs w out = (AllFail out.1 bs w × (out.0 ≡ err d)) ⊎ FirstAnswer out.0 out.1 bs w

module _ {W A : Type 0} (m : MultiBackend W) (is_not_found_error : S3Error → Bool)
    (not_found_error : S3Error) (operation : Operation W A) where
  -- What a read with fallback means: the primary's answer is final unless it is an error other
  -- than "not found"; then the first other backend that does not fail answers; and where all fail,
  -- the read reports "not found".
  pub data FallbackRun (w : W) (r : Result A) (w' : W) : Type 0 where
    settled :
        (b : StorageBackend W)
        → primary m ≡ some b
        → operation b w ≡ (r, w')
        → ((e : S3Error) → r ≡ err e → is_not_found_error e ≡ true)
        → FallbackRun w r w'
    fell_back :
        (b : StorageBackend W) (e : S3Error) (w1 : W)
        → primary m ≡ some b
        → operation b w ≡ (err e, w1)
        → is_not_found_error e ≡ false
        → FirstAnswer operation r w' (other_backends m) w1
        → FallbackRun w r w'
    exhausted :
        (b : StorageBackend W) (e : S3Error) (w1 : W)
        → primary m ≡ some b
        → operation b w ≡ (err e, w1)
        → is_not_found_error e ≡ false
        → AllFail operation w' (other_backends m) w1
        → r ≡ err not_found_error
        → FallbackRun w r w'

  abbrev Out : Result A × W → W → Type 0
  Out out w = FallbackRun w out.0 out.1

on_result-congr :
    {W A : Type 0} (out : Result A × W) (f g : S3Error → W → Result A × W)
    → ((e : S3Error) (w : W) → f e w ≡ g e w)
    → on_result out (λ a w. (ok a, w)) f ≡ on_result out (λ a w. (ok a, w)) g
unfolding on_result
on_result-congr (ok a, w) f g h = refl
on_result-congr (err e, w) f g h = h e w
on_result-congr (panic, w) f g h = refl

-- HEAD's loop over the other backends, and the shared one.
head_others-try_others :
    {W : Type 0} (key : Text) (backends : List (StorageBackend W)) (w : W)
    → head_others key backends w ≡ try_others no_such_key (λ b. b.head_object key) backends w
unfolding head_others try_others
head_others-try_others key [] w = refl
head_others-try_others key (b ∷ backends) w =
    on_result-congr (b.head_object key w) _ _ λ e. head_others-try_others key backends

head_answered :
    {W : Type 0} (key : Text) (others : List (StorageBackend W)) (e : S3Error) (w : W)
    → Path
        (Result ObjectMetadata × W)
        (elim e [ no_such_key ↦ (err no_such_key, w) | _ ↦ head_others key others w ])
        (if is_no_such_key e
          then (err e, w)
          else try_others no_such_key (λ b. b.head_object key) others w)
unfolding is_no_such_key
head_answered key others e w = ground (arith, head_others-try_others key others w)

-- HEAD's own PRIMARY_FALLBACK loop and the shared helper, given HEAD's operation and NoSuchKey,
-- have the same result and the same final world, for all backends and worlds.
pub head_object_primary_fallback-eq :
    {W : Type 0} (m : MultiBackend W) (key : Text) (w : W)
    → head_object_primary_fallback m key w
      ≡ try_primary_fallback m is_no_such_key no_such_key (λ b. b.head_object key) w
unfolding head_object_primary_fallback try_primary_fallback
head_object_primary_fallback-eq m key w = elim (Option-cases (primary m)) [
  | inl e ↦ rw (e, head_object_primary_fallback, try_primary_fallback)
  | inr (b, e) ↦
      rw (e, head_object_primary_fallback, try_primary_fallback)
        (on_result-congr (b.head_object key w) _ _ (head_answered key (other_backends m)))
]
