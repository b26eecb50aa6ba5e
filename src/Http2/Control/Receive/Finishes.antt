-- ===== src/Http2/Control/Receive/Finishes.antt =====
-- `poll_recv_frame` of src/http2/control.rs keeps every ready stream waiting: it finishes built streams only.
use mathlib.Core.Path.{subst}
use dmeng.Prelude.{
  ℕ, ◌≡◌, sym, ap, ◌∙◌, Bool, true, false, none, some, List, [], ◌∷◌, ◌==◌, ==_iff, arith,
  Bool-cases, inl, inr,
}
use dmeng.Prelude.Poll.{Outcome, ok, split, is_pending, is_ok, is_err, is_panic, is_spin}
use dmeng.Error.{ProtError}
use dmeng.Http2.Platform.{Platform}
use dmeng.Http2.InnerStream.{InnerStream, poll_send}
use dmeng.Http2.InnerStream.Safe.{poll_send-ends}
use dmeng.Http2.Control.{Control, find, contains, finish_stream}
use dmeng.Http2.Control.Receive.{poll_streams, finish_all, poll_recv_frame}
use dmeng.Http2.Control.Receive.Ready.{AllWaiting, IsReady, AllWaiting-delete}
use dmeng.Http2.Control.Receive.Receives.{built-absent}
use dmeng.Http2.Control.Receive.Polls.{
  IsUnique, delete-IsUnique, poll_streams-Kept, Kept-IsUnique, Kept-AllWaiting,
}

module _ (p : Platform) where
  -- Streams that are there and built.
  AllBuilt : List (ℕ × InnerStream p) → List ℕ → Type 0
  AllBuilt m [] = Unit
  AllBuilt m (id ∷ ids) =
      ((s : InnerStream p) × (find id m ≡ some s) × (s.is_builder ≡ true)) × AllBuilt m ids

  AllAbsent : List ℕ → List ℕ → Type 0
  AllAbsent q [] = Unit
  AllAbsent q (id ∷ ids) = (contains id q ≡ false) × AllAbsent q ids

  find-later :
      (i j : ℕ) (s t : InnerStream p) (m : List (ℕ × InnerStream p))
      → find i m ≡ none
      → find j m ≡ some t
      → find j ((i, s) ∷ m) ≡ some t
  find-later i j s t m absent known = elim (Bool-cases (i == j)) [
    | inl here ↦
        let at : i ≡ j = (==_iff i j).0 here in
        absurd (cc (sym absent ∙ ap (λ k. find k m) at ∙ known))
    | inr other ↦ rw (other, find) known
  ]

  AllBuilt-later :
      (i : ℕ) (s : InnerStream p) (m : List (ℕ × InnerStream p)) (ids : List ℕ)
      → find i m ≡ none
      → AllBuilt m ids
      → AllBuilt ((i, s) ∷ m) ids
  unfolding AllBuilt
  AllBuilt-later i s m [] absent all = tt
  AllBuilt-later i s m (id ∷ ids) absent ((t, known, built), rest) =
      ((t, find-later i id s t m absent known, built), AllBuilt-later i s m ids absent rest)

  find-first :
      (i : ℕ) (s : InnerStream p) (m : List (ℕ × InnerStream p)) → find i ((i, s) ∷ m) ≡ some s
  find-first i s m = ground arith

  answer_ids : {a b : List ℕ} → ◌≡◌ {A = Outcome ProtError (List ℕ)} (ok a) (ok b) → a ≡ b
  answer_ids h = cc

  and_first : Bool → ℕ → List ℕ → List ℕ
  and_first true i ids = i ∷ ids
  and_first false i ids = ids

  first-AllBuilt :
      (b : Bool) (i : ℕ) (s : InnerStream p) (m : List (ℕ × InnerStream p)) (ids : List ℕ)
      → (poll_send p s).0 ≡ ok b
      → AllBuilt ((i, s) ∷ m) ids
      → AllBuilt ((i, s) ∷ m) (and_first b i ids)
  unfolding AllBuilt and_first
  first-AllBuilt true i s m ids ended all = ((s, find-first i s m, poll_send-ends p s ended), all)
  first-AllBuilt false i s m ids ended all = all

  poll_streams-cons :
      (i : ℕ) (s : InnerStream p) (m : List (ℕ × InnerStream p)) (ids : List ℕ)
      → (poll_streams p ((i, s) ∷ m)).0 ≡ ok ids
      → (b : Bool) × (later : List ℕ) × ((poll_send p s).0 ≡ ok b)
        × ((poll_streams p m).0 ≡ ok later)
        × (and_first b i later ≡ ids)
  unfolding poll_streams and_first
  poll_streams-cons i s m ids answer = elim (split (poll_send p s).0) [
    | is_ok b e ↦
        let answer' = rw (e, poll_streams) at answer in
        elim (split (poll_streams p m).0) [
          | is_ok later f ↦
              let answer'' = rw (f, poll_streams) at answer' in
              elim (Bool-cases b) [
                | inl ended ↦ (b, later, e, f, answer_ids (rw ended (rw ended at answer'')))
                | inr goes_on ↦ (b, later, e, f, answer_ids (rw goes_on (rw goes_on at answer'')))
              ]
          | is_err x f ↦ ground arith
          | is_pending f ↦ ground arith
          | is_panic f ↦ ground arith
          | is_spin f ↦ ground arith
        ]
    | is_err x e ↦ ground arith
    | is_pending e ↦ ground arith
    | is_panic e ↦ ground arith
    | is_spin e ↦ ground arith
  ]

  -- What the pass answers as ended is there and built.
  poll_streams-AllBuilt :
      (m : List (ℕ × InnerStream p)) (ids : List ℕ)
      → IsUnique m
      → (poll_streams p m).0 ≡ ok ids
      → AllBuilt m ids
  unfolding poll_streams AllBuilt
  poll_streams-AllBuilt [] ids v answer = subst (λ xs. AllBuilt [] xs) (answer_ids answer) tt
  poll_streams-AllBuilt ((i, s) ∷ m) ids (absent, v) answer =
      let (b, later, ended, rest, same) = poll_streams-cons i s m ids answer in
      subst (λ xs. AllBuilt ((i, s) ∷ m) xs) same
        (first-AllBuilt b i s m later ended
          (AllBuilt-later i s m later absent (poll_streams-AllBuilt m later v rest)))

  built-AllAbsent :
      (m : List (ℕ × InnerStream p)) (ids q : List ℕ)
      → AllBuilt m ids
      → AllWaiting p m q
      → AllAbsent q ids
  unfolding AllBuilt AllAbsent
  built-AllAbsent m [] q all v = tt
  built-AllAbsent m (id ∷ ids) q ((s, known, built), rest) v =
      (built-absent p m id s q known built v, built-AllAbsent m ids q rest v)

  finish_all-IsReady :
      (ids : List ℕ) (k : Control p)
      → AllAbsent k.ready_queue ids
      → IsReady p k
      → IsUnique k.recv_frames
      → IsReady p (finish_all p ids k) × IsUnique (finish_all p ids k).recv_frames
  unfolding finish_all finish_stream AllAbsent
  finish_all-IsReady [] k all v u = (v, u)
  finish_all-IsReady (id ∷ ids) k (absent, rest) v u =
      finish_all-IsReady ids (finish_stream p id k) rest
        (record { waiting = AllWaiting-delete p k.recv_frames id k.ready_queue absent v.waiting })
        (delete-IsUnique id k.recv_frames u)

  -- Passing the data of the streams on, whatever becomes of it, keeps every ready stream waiting: only
  -- streams that are built are finished.
  pub poll_recv_frame-IsReady :
      (k : Control p)
      → IsReady p k
      → IsUnique k.recv_frames
      → let (out, k') = poll_recv_frame p k in IsReady p k' × IsUnique k'.recv_frames
  unfolding poll_recv_frame
  poll_recv_frame-IsReady k v u =
      let m = (poll_streams p k.recv_frames).1 in
      let kept = poll_streams-Kept p k.recv_frames in
      let v' : IsReady p (record k { recv_frames = m }) = record {
        waiting = Kept-AllWaiting p k.recv_frames m k.ready_queue kept v.waiting;
      } in
      let u' = Kept-IsUnique p k.recv_frames m kept u in
      elim (split (poll_streams p k.recv_frames).0) [
        | is_ok ids e ↦
            rw (e, poll_recv_frame)
              (finish_all-IsReady ids (record k { recv_frames = m })
                (built-AllAbsent k.recv_frames ids k.ready_queue
                  (poll_streams-AllBuilt k.recv_frames ids u e) v.waiting)
                v' u')
        | is_err x e ↦ rw (e, poll_recv_frame) (v', u')
        | is_pending e ↦ rw (e, poll_recv_frame) (v', u')
        | is_panic e ↦ rw (e, poll_recv_frame) (v', u')
        | is_spin e ↦ rw (e, poll_recv_frame) (v', u')
      ]
