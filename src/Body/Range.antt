-- ===== src/Body/Range.antt =====
-- The part of a file that a body of src/body.rs may read.
use dmeng.Prelude.{
  ℕ, ◌+◌, ◌-◌, ◌≤◌, ◌<◌, ◌≡◌, min, List, [], ◌∷◌, ◌++◌, none, some, Option, Bool-cases, inl, inr,
  ltb→lt, length, take, length-append, length-take, arith, refl, leb, ltb, ◌||◌,
}
use dmeng.Prelude.Poll.{ok}
use dmeng.Error.{Bytes}
use dmeng.Body.Platform.{Platform}
use dmeng.Body.Receiver.{InnerReceiver, cut, set_start_end, seek_to}

-- What a number of reads of the file give, each cut to what is left.
unfoldable pub cuts : (p : Platform) → List Bytes → InnerReceiver p → Bytes × InnerReceiver p
cuts p [] r = ([], r)
cuts p (b ∷ bs) r = let c = cut p b r in let rest = cuts p bs c.1 in (c.0.1 ++ rest.0, rest.1)

-- Whatever the file's reads give, what the receiver hands out and what it may still hand out are
-- together the size that it started with.
pub cuts-data_size :
    (p : Platform) (bs : List Bytes) (r : InnerReceiver p)
    → length (cuts p bs r).0 + (cuts p bs r).1.data_size ≡ r.data_size
unfolding cuts cut
cuts-data_size p [] r = omega arith
cuts-data_size p (b ∷ bs) r =
    let c = cut p b r in
    let rest = cuts-data_size p bs c.1 in
    let taken = length-take (min r.data_size (length b)) b in
    let all = length-append c.0.1 (cuts p bs c.1).0 in omega (arith, rest, taken, all)

seek_to-data_size :
    (p : Platform) (start : ℕ) (f : Option p.File) (r : InnerReceiver p)
    → (seek_to p start f r).1.data_size ≡ r.data_size
unfolding seek_to
seek_to-data_size p start none r = refl
seek_to-data_size p start (some f) r = ground arith

-- A range of a file is refused where it ends before it starts; otherwise, whether the seek succeeds or
-- not, no reads of the file hand out more than the range's length.
pub set_start_end-cuts :
    (p : Platform) (start_pos end_pos : ℕ) (bs : List Bytes) (r : InnerReceiver p)
    → let (o, r') = set_start_end p start_pos end_pos r in
      (end_pos < start_pos → (o ≡ dmeng.Prelude.Poll.panic) × (r' ≡ r))
      × (start_pos ≤ end_pos → length (cuts p bs r').0 ≤ end_pos - start_pos)
unfolding set_start_end
set_start_end-cuts p start_pos end_pos bs r =
    let r0 = record r {
      start_pos = some start_pos;
      end_pos = some end_pos;
      data_size = end_pos - start_pos;
    } in
    let size = seek_to-data_size p start_pos r.file r0 in
    let given = cuts-data_size p bs (seek_to p start_pos r.file r0).1 in
    elim (Bool-cases (ltb end_pos start_pos)) [
      | inl e ↦ rw e ((λ h. (refl, refl)), λ h. absurd (omega (arith, ltb→lt end_pos start_pos e)))
      | inr e ↦ rw e ((λ h. absurd (ground arith)), λ h. omega (arith, size, given))
    ]
