-- ===== src/Http2/Control/Receive/Polls.antt =====
-- What a pass over the streams of src/http2/control.rs keeps: their keys, and whether each is built.
use dmeng.Prelude.{
  ℕ, ◌≡◌, refl, sym, ap, ◌∙◌, false, Option, none, some, List, [], ◌∷◌, ◌==◌, ==_iff, arith,
  Bool-cases, inl, inr,
}
use dmeng.Prelude.Poll.{split, is_pending, is_ok, is_err, is_panic, is_spin}
use dmeng.Http2.Platform.{Platform}
use dmeng.Http2.InnerStream.{InnerStream, poll_send}
use dmeng.Http2.InnerStream.Safe.{poll_send-is_builder}
use dmeng.Http2.Control.{find, put, delete}
use dmeng.Http2.Control.Streams.{find-put-other}
use dmeng.Http2.Control.Receive.{poll_streams}
use dmeng.Http2.Control.Receive.Ready.{IsWaiting, AllWaiting}

module _ {A : Type 0} where
  -- No key of an association list comes twice.
  abbrev pub IsUnique : List (ℕ × A) → Type 0
  IsUnique [] = Unit
  IsUnique ((j, a) ∷ m) = (find j m ≡ none) × IsUnique m

  pub put-IsUnique : (k : ℕ) (a : A) (m : List (ℕ × A)) → IsUnique m → IsUnique (put k a m)
  put-IsUnique k a [] v = (refl, tt)
  put-IsUnique k a ((j, b) ∷ m) (absent, rest) = elim (Bool-cases (j == k)) [
    | inl same ↦
        let at : j ≡ k = (==_iff j k).0 same in
        rw (same, put) (ap (λ i. find i m) (sym at) ∙ absent, rest)
    | inr other ↦
        let other' : k == j ≡ false = ground (arith, other) in
        rw (other, put) (find-put-other j k a m other' ∙ absent, put-IsUnique k a m rest)
  ]

  find-delete-none : (j k : ℕ) (m : List (ℕ × A)) → find j m ≡ none → find j (delete k m) ≡ none
  find-delete-none j k [] absent = refl
  find-delete-none j k ((i, b) ∷ m) absent = elim (Bool-cases (i == j)) [
    | inl here ↦ absurd (ground (arith, here))
    | inr other ↦
        let absent' : find j m ≡ none = ground (arith, other) in
        let rest = find-delete-none j k m absent' in ground (arith, rest, other)
  ]

  pub delete-IsUnique : (k : ℕ) (m : List (ℕ × A)) → IsUnique m → IsUnique (delete k m)
  delete-IsUnique k [] v = tt
  delete-IsUnique k ((j, b) ∷ m) (absent, rest) = elim (Bool-cases (j == k)) [
    | inl same ↦ rw (same, delete) (delete-IsUnique k m rest)
    | inr other ↦ rw (other, delete) (find-delete-none j k m absent, delete-IsUnique k m rest)
  ]

module _ (p : Platform) where
  -- The same streams, each built exactly if it was.
  pub data Kept : List (ℕ × InnerStream p) → List (ℕ × InnerStream p) → Type 0 where
    nothing : Kept [] []
    and_one :
        (i : ℕ) (s s' : InnerStream p) (m m' : List (ℕ × InnerStream p))
        → s'.is_builder ≡ s.is_builder
        → Kept m m'
        → Kept ((i, s) ∷ m) ((i, s') ∷ m')

  Kept-refl : (m : List (ℕ × InnerStream p)) → Kept m m
  Kept-refl [] = nothing
  Kept-refl ((i, s) ∷ m) = and_one i s s m m refl (Kept-refl m)

  pub poll_streams-Kept : (m : List (ℕ × InnerStream p)) → Kept m (poll_streams p m).1
  unfolding poll_streams
  poll_streams-Kept [] = nothing
  poll_streams-Kept ((i, s) ∷ m) =
      let s' = (poll_send p s).1 in
      let same = poll_send-is_builder p s in
      let stopped = and_one i s s' m m same (Kept-refl m) in
      let on = and_one i s s' m (poll_streams p m).1 same (poll_streams-Kept m) in
      elim (split (poll_send p s).0) [
        | is_ok b e ↦
            rw (e, poll_streams)
              (elim (split (poll_streams p m).0) [
                | is_ok ids f ↦ rw (f, poll_streams) on
                | is_err x f ↦ rw (f, poll_streams) on
                | is_pending f ↦ rw (f, poll_streams) on
                | is_panic f ↦ rw (f, poll_streams) on
                | is_spin f ↦ rw (f, poll_streams) on
              ])
        | is_err x e ↦ rw (e, poll_streams) stopped
        | is_pending e ↦ rw (e, poll_streams) stopped
        | is_panic e ↦ rw (e, poll_streams) stopped
        | is_spin e ↦ rw (e, poll_streams) stopped
      ]

  Kept-none :
      (j : ℕ) (m m' : List (ℕ × InnerStream p)) → Kept m m' → find j m ≡ none → find j m' ≡ none
  Kept-none j _ _ nothing absent = refl
  Kept-none j _ _ (and_one i s s' m m' same rest) absent = elim (Bool-cases (i == j)) [
    | inl here ↦ absurd (ground (arith, here))
    | inr other ↦
        let absent' : find j m ≡ none = ground (arith, other) in
        rw (other, find) (Kept-none j m m' rest absent')
  ]

  pub Kept-IsUnique : (m m' : List (ℕ × InnerStream p)) → Kept m m' → IsUnique m → IsUnique m'
  Kept-IsUnique _ _ nothing v = tt
  Kept-IsUnique _ _ (and_one i s s' m m' same rest) (absent, v) =
      (Kept-none i m m' rest absent, Kept-IsUnique m m' rest v)

  Kept-find :
      (j : ℕ) (t : InnerStream p) (m m' : List (ℕ × InnerStream p))
      → Kept m m'
      → find j m ≡ some t
      → (t' : InnerStream p) × (find j m' ≡ some t') × (t'.is_builder ≡ t.is_builder)
  Kept-find j t _ _ nothing known = absurd (cc known)
  Kept-find j t _ _ (and_one i s s' m m' same rest) known = elim (Bool-cases (i == j)) [
    | inl here ↦
        let known' : ◌≡◌ {A = Option (InnerStream p)} (some s) (some t) = ground (arith, here) in
        let at : s ≡ t = cc known' in
        (s', rw (here, find) refl, same ∙ ap (λ (z : InnerStream p). z.is_builder) at)
    | inr other ↦
        let known' : find j m ≡ some t = ground (arith, other) in
        let (t', found, built) = Kept-find j t m m' rest known' in
        (t', rw (other, find) found, built)
  ]

  pub Kept-AllWaiting :
      (m m' : List (ℕ × InnerStream p)) (ids : List ℕ)
      → Kept m m'
      → AllWaiting p m ids
      → AllWaiting p m' ids
  Kept-AllWaiting m m' [] kept all = tt
  Kept-AllWaiting m m' (id ∷ ids) kept (w, absent, rest) =
      let (t', found, built) = Kept-find id w.stream m m' kept w.known in
      let w' : IsWaiting p m' id = record {
        stream = t';
        known = found;
        unbuilt = built ∙ w.unbuilt;
      } in
      (w', absent, Kept-AllWaiting m m' ids kept rest)
