-- ===== src/Http2/PriorityQueue/Drain.antt =====
-- The sending loop of src/http2/priority_queue.rs: in the queue's order, without loss, and never past a
-- closed window with data.
use dmeng.Prelude.{
  List-cases, ℕ, zero, suc, ◌<◌, ◌≡◌, ◌≢◌, refl, if◌then◌else◌, sym, ap, ◌∙◌, ◌↔◌, inl, inr, true,
  false, some, List, [], ◌∷◌, ◌++◌, length, arith, Bool-cases,
}
use dmeng.Prelude.Poll.{Outcome, panic, spin, split, is_pending, is_ok, is_err, is_panic, is_spin}
use dmeng.Error.{ProtError}
use dmeng.Http2.Frame.{PriorityFrame, is_data}
use dmeng.Http2.Platform.{Platform}
use dmeng.Http2.Codec.{Codec, poll_ready}
use dmeng.Http2.Codec.Stream.{poll_ready-safe, send_frame-safe}
use dmeng.Http2.PriorityQueue.{
  PriorityQueue, is_available, is_queue_empty, held_back, send_first, drain, poll_handle,
}

-- The documented behaviour of the ordered tree, over the list of its frames in order.
pub record QueueLaws (p : Platform) : Type 1 where
  pub view : p.SendQueue → List (PriorityFrame p.HeaderMap)
  pub len_lem : (s : p.SendQueue) → p.queue_len s ≡ length (view s)
  pub is_empty_lem : (s : p.SendQueue) → (p.queue_is_empty s ≡ true) ↔ (view s ≡ [])
  pub first_lem :
      (s : p.SendQueue) (x : PriorityFrame p.HeaderMap) (r : List (PriorityFrame p.HeaderMap))
      → view s ≡ x ∷ r
      → p.queue_first s ≡ some x
  pub pop_lem :
      (s : p.SendQueue) (x : PriorityFrame p.HeaderMap) (r : List (PriorityFrame p.HeaderMap))
      → view s ≡ x ∷ r
      → (t : p.SendQueue) × (p.queue_pop_first s ≡ some (x, t)) × (view t ≡ r)

abbrev pub NoData : {H : Type 0} → List (PriorityFrame H) → Type 0
NoData [] = Unit
NoData (x ∷ xs) = (is_data x.frame ≡ false) × NoData xs

module _ (p : Platform) (l : QueueLaws p) where
  pub record Drains (q : PriorityQueue p) (out : Outcome ProtError (Unit {0}))
      (q' : PriorityQueue p) : Type 0 where
    pub taken : List (PriorityFrame p.HeaderMap)
    pub order : l.view q.send_queue ≡ taken ++ l.view q'.send_queue
    pub gated : is_available q.flow_control ≡ false → NoData taken
    pub no_panic : out ≢ panic
    pub no_spin : out ≢ spin

  idle :
      {q : PriorityQueue p} {out : Outcome ProtError (Unit {0})}
      → out ≢ panic
      → out ≢ spin
      → Drains q out q
  idle np ns = record { taken = []; order = refl; gated = λ _. tt; no_panic = np; no_spin = ns }

  module _ (q : PriorityQueue p) (x : PriorityFrame p.HeaderMap)
      (r : List (PriorityFrame p.HeaderMap)) (some_left : l.view q.send_queue ≡ x ∷ r) where
    not-is_queue_empty : is_queue_empty p q ≡ false
    unfolding is_queue_empty
    not-is_queue_empty = elim (Bool-cases (p.queue_is_empty q.send_queue)) [
      | inl e ↦ cc ((l.is_empty_lem q.send_queue).0 e)
      | inr e ↦ e
    ]

    held_back-first :
        held_back p q ≡ some (if is_available q.flow_control then false else is_data x.frame)
    unfolding held_back
    held_back-first = ground (arith, l.first_lem q.send_queue x r some_left)

    send_first-taken :
        (t : p.SendQueue) (c : Codec p)
        → p.queue_pop_first q.send_queue ≡ some (x, t)
        → ((send_first p q c).1 ≡ record q { send_queue = t })
          × ((send_first p q c).0 ≢ panic)
          × ((send_first p q c).0 ≢ spin)
    unfolding send_first
    send_first-taken t c popped = ground (arith, send_frame-safe p x.frame c)

    and_first :
        {out : Outcome ProtError (Unit {0})} {q₁ q' : PriorityQueue p}
        → (is_available q.flow_control ≡ false → is_data x.frame ≡ false)
        → l.view q₁.send_queue ≡ r
        → q₁.flow_control ≡ q.flow_control
        → Drains q₁ out q'
        → Drains q out q'
    and_first {q' = q'} allowed rest same d = record {
      taken = x ∷ d.taken;
      order = some_left ∙ ap (λ s. x ∷ s) (sym rest ∙ d.order);
      gated = λ closed. (allowed closed, d.gated (rw same closed));
      no_panic = d.no_panic;
      no_spin = d.no_spin;
    }

  drain-Drains :
      (fuel : ℕ) (q : PriorityQueue p) (c : Codec p)
      → length (l.view q.send_queue) < fuel
      → let r = drain p fuel q c in Drains q r.0 r.1
  unfolding drain
  drain-Drains zero q c enough = absurd (omega arith)
  drain-Drains (suc fuel) q c enough = elim (split (poll_ready p c).0) [
    | is_pending e ↦ rw (e, drain) (idle (λ h. cc) (λ h. cc))
    | is_err x e ↦ rw (e, drain) (idle (λ h. cc) (λ h. cc))
    | is_panic e ↦ absurd ((poll_ready-safe p c).0 e)
    | is_spin e ↦ absurd ((poll_ready-safe p c).1 e)
    | is_ok u e ↦ elim (List-cases (l.view q.send_queue)) [
      | inl none_left ↦
          rw (e, drain)
            (rw ((l.is_empty_lem q.send_queue).1 none_left, drain) (idle (λ h. cc) (λ h. cc)))
      | inr (x, r, some_left) ↦
          rw (e, drain)
            (rw (not-is_queue_empty q x r some_left, drain)
              (rw (held_back-first q x r some_left, drain)
                (elim (Bool-cases
                  (if is_available q.flow_control then false else is_data x.frame)) [
                    | inl held ↦ rw (held, drain) (idle (λ h. cc) (λ h. cc))
                    | inr free ↦
                        let c' = (poll_ready p c).1 in
                        let (t, popped, rest) = l.pop_lem q.send_queue x r some_left in
                        let q' = (send_first p q c').1 in
                        let s = send_first-taken q x r some_left t c' popped in
                        let left = ap (λ (z : PriorityQueue p). l.view z.send_queue) s.0 ∙ rest in
                        let and_x = λ (out : Outcome ProtError (Unit {0})) (z : PriorityQueue p).
                          and_first q x r some_left {out = out} {q₁ = q'} {q' = z}
                            (λ closed. ground arith) left
                            (ap (λ (z : PriorityQueue p). z.flow_control) s.0) in
                        rw (free, drain)
                          (elim (split (send_first p q c').0) [
                            | is_ok v sent ↦
                                rw (sent, drain)
                                  (and_x _ _ (
                                    drain-Drains fuel q' (send_first p q c').2
                                      (omega (arith, ap length left, ap length some_left))))
                            | is_pending sent ↦
                                rw (sent, drain) (and_x _ _ (idle (λ h. cc) (λ h. cc)))
                            | is_err y sent ↦
                                rw (sent, drain) (and_x _ _ (idle (λ h. cc) (λ h. cc)))
                            | is_panic sent ↦ absurd (s.1 sent)
                            | is_spin sent ↦ absurd (s.2 sent)
                          ])
                  ])))
    ]
  ]

  -- One call of the loop takes frames out of the queue in its order, from the front, and leaves the rest
  -- as they were; where the window is closed none of those taken is a data frame. It ends, and it does
  -- not panic: the two `unwrap`s find a frame.
  pub poll_handle-Drains :
      (q : PriorityQueue p) (c : Codec p) → let r = poll_handle p q c in Drains q r.0 r.1
  unfolding poll_handle
  poll_handle-Drains q c =
      drain-Drains (suc (p.queue_len q.send_queue)) q c (omega (arith, l.len_lem q.send_queue))
