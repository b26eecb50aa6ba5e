-- ===== src/Http2/Control/Receive/Ready.antt =====
-- src/http2/control.rs: where END_HEADERS comes once for each stream, every ready stream is there and not
-- built, so that handing it out does not panic.
use dmeng.Prelude.{
  List-cases, ℕ, ◌≡◌, ◌≢◌, refl, ◌∙◌, true, false, some, List, [], ◌∷◌, ◌++◌, inl, inr,
}
use dmeng.Prelude.Poll.{panic, spin, split, is_pending, is_ok, is_err, is_panic, is_spin}
use dmeng.Http2.Platform.{Platform}
use dmeng.Http2.InnerStream.{InnerStream, build_request}
use dmeng.Http2.InnerStream.Safe.{build_request-safe}
use dmeng.Http2.Control.{Control, find, put, delete, contains, finish_stream}
use dmeng.Http2.Control.Streams.{
  find-put-other, find-delete-other, contains-other, contains-first, contains-later,
  contains-not-first, contains-not-later, contains-append,
}
use dmeng.Http2.Control.Receive.{build_request_frame, build_ready}

module _ (p : Platform) where
  -- A stream that is there and not built.
  pub record IsWaiting (m : List (ℕ × InnerStream p)) (id : ℕ) : Type 0 where
    pub stream : InnerStream p
    pub known : find id m ≡ some stream
    pub unbuilt : stream.is_builder ≡ false

  -- Each stream of a queue is waiting, and is in the queue once.
  abbrev pub AllWaiting : List (ℕ × InnerStream p) → List ℕ → Type 0
  AllWaiting m [] = Unit
  AllWaiting m (id ∷ ids) = IsWaiting m id × (contains id ids ≡ false) × AllWaiting m ids

  pub record IsReady (k : Control p) : Type 0 where
    pub waiting : AllWaiting k.recv_frames k.ready_queue

  pub AllWaiting-keeps :
      (m m' : List (ℕ × InnerStream p)) (ids : List ℕ)
      → ((j : ℕ) → contains j ids ≡ true → find j m' ≡ find j m)
      → AllWaiting m ids
      → AllWaiting m' ids
  AllWaiting-keeps m m' [] same all = tt
  AllWaiting-keeps m m' (id ∷ ids) same (w, absent, rest) =
      let w' : IsWaiting m' id = record {
        stream = w.stream;
        known = same id (contains-first id ids) ∙ w.known;
        unbuilt = w.unbuilt;
      } in
      (
        w',
        absent,
        AllWaiting-keeps m m' ids (λ j present. same j (contains-later j id ids present)) rest,
      )

  pub AllWaiting-append :
      (m : List (ℕ × InnerStream p)) (id : ℕ) (ids : List ℕ)
      → IsWaiting m id
      → contains id ids ≡ false
      → AllWaiting m ids
      → AllWaiting m (ids ++ id ∷ [])
  AllWaiting-append m id [] w absent all = (w, refl, tt)
  AllWaiting-append m id (i ∷ ids) w absent (first, once, rest) = (
    first,
    contains-append i id ids (contains-not-first id i ids absent) once,
    AllWaiting-append m id ids w (contains-not-later id i ids absent) rest,
  )

  pub AllWaiting-put :
      (m : List (ℕ × InnerStream p)) (id : ℕ) (s : InnerStream p) (ids : List ℕ)
      → contains id ids ≡ false
      → AllWaiting m ids
      → AllWaiting (put id s m) ids
  AllWaiting-put m id s ids absent =
      AllWaiting-keeps m (put id s m) ids
        (λ j present. find-put-other j id s m (contains-other j id ids absent present))

  pub AllWaiting-delete :
      (m : List (ℕ × InnerStream p)) (id : ℕ) (ids : List ℕ)
      → contains id ids ≡ false
      → AllWaiting m ids
      → AllWaiting (delete id m) ids
  AllWaiting-delete m id ids absent =
      AllWaiting-keeps m (delete id m) ids
        (λ j present. find-delete-other j id m (contains-other j id ids absent present))

  build_ready-IsReady :
      (id : ℕ) (s : InnerStream p) (k : Control p)
      → contains id k.ready_queue ≡ false
      → IsReady k
      → let (out, k') = build_ready p id s k in (out ≢ panic) × (out ≢ spin) × IsReady k'
  unfolding build_ready finish_stream
  build_ready-IsReady id s k absent v =
      let m = put id (build_request p s).1 k.recv_frames in
      let put_ =
        AllWaiting-put k.recv_frames id (build_request p s).1 k.ready_queue absent v.waiting in
      elim (split (build_request p s).0) [
        | is_ok (true, r) e ↦
            rw (e, build_ready)
              (
                (λ h. cc),
                (λ h. cc),
                record { waiting = AllWaiting-delete m id k.ready_queue absent put_ },
              )
        | is_ok (false, r) e ↦ rw (e, build_ready) ((λ h. cc), (λ h. cc), record { waiting = put_ })
        | is_err x e ↦ rw (e, build_ready) ((λ h. cc), (λ h. cc), record { waiting = put_ })
        | is_pending e ↦ rw (e, build_ready) ((λ h. cc), (λ h. cc), record { waiting = put_ })
        | is_panic e ↦ absurd ((build_request-safe p s).0 e)
        | is_spin e ↦ absurd ((build_request-safe p s).1 e)
      ]

  -- While every ready stream is waiting, handing one out neither panics nor loops, and the streams that
  -- are still ready are waiting.
  pub build_request_frame-IsReady :
      (k : Control p)
      → IsReady k
      → let (out, k') = build_request_frame p k in (out ≢ panic) × (out ≢ spin) × IsReady k'
  unfolding build_request_frame
  build_request_frame-IsReady k v = elim (List-cases k.ready_queue) [
    | inl idle ↦ rw (idle, build_request_frame) ((λ h. cc), (λ h. cc), v)
    | inr (id, ids, ready) ↦
        let waiting = v.waiting in
        let all : AllWaiting k.recv_frames (id ∷ ids) = rw ready at waiting in
        let (w, absent, rest) = all in
        rw (ready, build_request_frame)
          (rw (w.known, build_request_frame)
            (build_ready-IsReady id w.stream (record k { ready_queue = ids }) absent
              (record { waiting = rest })))
  ]
