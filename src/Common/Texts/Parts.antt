-- ===== src/Common/Texts/Parts.antt =====
-- Splitting a text at a separator, and joining the parts.
use Prim.Native.Nat.{ℕ}
use native.Mathlib.Omega.{arith}
use mathlib.Core.Path.{◌≡◌, refl, ap, subst}
use mathlib.Core.Logic.{◌≢◌, inl, inr}
use mathlib.Core.Bool.{false}
use mathlib.Core.List.{List, [], ◌∷◌, ◌++◌, append_assoc, append-nil}
use replica_t.Common.Tests.{◌==◌, Bool-cases, ==_refl}
use replica_t.Common.Lists.{All}
use replica_t.Common.Chars.{Text}
use replica_t.Common.Texts.{push_head, split, join, Lacks}

push_head-ne-nil : (b : ℕ) (ps : List Text) → push_head b ps ≢ []
unfolding push_head
push_head-ne-nil b [] = ground arith
push_head-ne-nil b (p ∷ ps) = ground arith

module _ (sep : ℕ) where
  pub split-ne-nil : (s : Text) → split s sep ≢ []
  unfolding split
  split-ne-nil [] = ground arith
  split-ne-nil (b ∷ s) = ground (arith, push_head-ne-nil b (split s sep))

  join-push_head :
      (b : ℕ) (ps : List Text) → join (push_head b ps) (sep ∷ []) ≡ b ∷ join ps (sep ∷ [])
  unfolding push_head join
  join-push_head b [] = refl
  join-push_head b (p ∷ []) = refl
  join-push_head b (p ∷ q ∷ ps) = refl

  join-cons :
      (p : Text) (ps : List Text)
      → ps ≢ []
      → join (p ∷ ps) (sep ∷ []) ≡ p ++ (sep ∷ join ps (sep ∷ []))
  unfolding join
  join-cons p [] h = absurd (h refl)
  join-cons p (q ∷ ps) h = append_assoc p (sep ∷ []) (join (q ∷ ps) (sep ∷ []))

  -- Joining the parts of a split gives the text back.
  pub join-split : (s : Text) → join (split s sep) (sep ∷ []) ≡ s
  unfolding split
  join-split [] = unfold join in refl
  join-split (b ∷ s) = elim (Bool-cases (b == sep)) [
    | inl h ↦
        let e : b ≡ sep = ground arith in
        rw (h, join-cons [] (split s sep) (split-ne-nil s), join-split s, e) refl
    | inr h ↦ rw (h, join-push_head b (split s sep), join-split s) refl
  ]

  Lacks-head :
      (p : Text) (ps : List Text) (s : Text)
      → Lacks sep p
      → split s sep ≡ [] ∷ ps
      → split (p ++ s) sep ≡ p ∷ ps
  unfolding split
  Lacks-head [] ps s h e = e
  Lacks-head (b ∷ p) ps s h e = rw (h.0, Lacks-head p ps s h.1 e) refl

  split_at : (p s : Text) → Lacks sep p → split (p ++ (sep ∷ s)) sep ≡ p ∷ split s sep
  unfolding split
  split_at p s h = Lacks-head p (split s sep) (sep ∷ s) h (rw (==_refl sep) refl)

  pub split_whole : (p : Text) → Lacks sep p → split p sep ≡ p ∷ []
  unfolding split
  split_whole p h = subst (λ q. split q sep ≡ p ∷ []) (append-nil p) (Lacks-head p [] [] h refl)

  -- Splitting a join gives the parts back, where there is one and none holds the separator.
  pub split-join :
      (ps : List Text) → ps ≢ [] → All (Lacks sep) ps → split (join ps (sep ∷ [])) sep ≡ ps
  split-join [] h a = absurd (h refl)
  split-join (p ∷ []) h a = unfold join in split_whole p a.0
  split-join (p ∷ q ∷ ps) h a =
      rw (join-cons p (q ∷ ps) (ground arith), split_at p (join (q ∷ ps) (sep ∷ [])) a.0)
        (ap (◌∷◌ p) (split-join (q ∷ ps) (ground arith) a.1))

pub split-Lacks : (s : Text) (sep : ℕ) → All (Lacks sep) (split s sep)
unfolding split
split-Lacks [] sep = (tt, tt)
split-Lacks (b ∷ s) sep = elim (Bool-cases (b == sep)) [
  | inl h ↦ rw h (tt, split-Lacks s sep)
  | inr h ↦ rw h (pushed (split s sep) h (split-Lacks s sep))
]
  where
    pushed :
        (ps : List Text)
        → (b == sep) ≡ false
        → All (Lacks sep) ps
        → All (Lacks sep) (push_head b ps)
    pushed [] h k = unfold push_head in ((h, tt), tt)
    pushed (p ∷ ps) h k = unfold push_head in ((h, k.0), k.1)
