-- ===== src/Http2/Control/Streams.antt =====
-- The association list that stands for the streams of src/http2/control.rs, and the list that stands for
-- its queue of ready streams.
use dmeng.Prelude.{
  ℕ, ◌≡◌, refl, sym, ap, ◌∙◌, true, false, none, some, List, [], ◌∷◌, ◌++◌, ◌==◌, ==_iff, arith,
  Bool-cases, inl, inr,
}
use dmeng.Http2.Control.{find, put, delete, contains}

-- What one key's entry leaves to the others.
module _ {A : Type 0} where
  pub find-put : (k : ℕ) (a : A) (m : List (ℕ × A)) → find k (put k a m) ≡ some a
  find-put k a [] = ground arith
  find-put k a ((j, b) ∷ m) = elim (Bool-cases (j == k)) [
    | inl same ↦ ground (arith, same)
    | inr other ↦ rw (other, put) (rw (other, find) (find-put k a m))
  ]

  pub find-delete : (k : ℕ) (m : List (ℕ × A)) → find k (delete k m) ≡ none
  find-delete k [] = refl
  find-delete k ((j, b) ∷ m) = elim (Bool-cases (j == k)) [
    | inl same ↦ rw (same, delete) (find-delete k m)
    | inr other ↦ rw (other, delete) (rw (other, find) (find-delete k m))
  ]

  pub find-put-other :
      (j k : ℕ) (a : A) (m : List (ℕ × A)) → k == j ≡ false → find j (put k a m) ≡ find j m
  find-put-other j k a [] other = rw (other, find) refl
  find-put-other j k a ((i, b) ∷ m) other = ground (arith, find-put-other j k a m other)

  pub find-delete-other :
      (j k : ℕ) (m : List (ℕ × A)) → k == j ≡ false → find j (delete k m) ≡ find j m
  find-delete-other j k [] other = refl
  find-delete-other j k ((i, b) ∷ m) other = ground (arith, find-delete-other j k m other)

pub contains-other :
    (j k : ℕ) (ids : List ℕ) → contains k ids ≡ false → contains j ids ≡ true → k == j ≡ false
contains-other j k ids absent present = elim (Bool-cases (k == j)) [
  | inl same ↦
      let at : k ≡ j = (==_iff k j).0 same in
      absurd (cc (sym absent ∙ ap (λ i. contains i ids) at ∙ present))
  | inr other ↦ other
]

pub contains-first : (id : ℕ) (ids : List ℕ) → contains id (id ∷ ids) ≡ true
contains-first id ids = ground arith

pub contains-later :
    (j id : ℕ) (ids : List ℕ) → contains j ids ≡ true → contains j (id ∷ ids) ≡ true
contains-later j id ids present = ground arith

pub contains-not-first : (j id : ℕ) (ids : List ℕ) → contains j (id ∷ ids) ≡ false → j == id ≡ false
contains-not-first j id ids absent = ground arith

pub contains-not-later :
    (j id : ℕ) (ids : List ℕ) → contains j (id ∷ ids) ≡ false → contains j ids ≡ false
contains-not-later j id ids absent = ground arith

pub contains-append :
    (j id : ℕ) (ids : List ℕ)
    → id == j ≡ false
    → contains j ids ≡ false
    → contains j (ids ++ id ∷ []) ≡ false
contains-append j id [] other absent = rw other refl
contains-append j id (i ∷ ids) other absent = ground (arith, contains-append j id ids other)
