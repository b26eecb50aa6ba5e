-- ===== src/Http2/PriorityQueue.antt =====
-- src/http2/priority_queue.rs and flow_control.rs: the frames to be sent, by the weights of their
-- streams. A `HashMap` is a function, a weight a `u8`. The tree that orders the frames is rbtree's.
pub mod Weights
pub mod Drain
use dmeng.Prelude.{
  ℕ, zero, suc, ◌+◌, ◌-◌, ◌^◌, ◌%◌, Bool, true, false, not, ◌||◌, Option, none, some, List, [], ◌∷◌,
  max, ltb, ◌==◌, if◌then◌else◌,
}
use dmeng.Prelude.Poll.{Outcome, pending, ok, err, panic, spin}
use dmeng.Error.{ProtError}
use dmeng.Http2.Frame.{Frame, Priority, PriorityFrame, is_data}
use dmeng.Http2.Platform.{Platform}
use dmeng.Http2.Codec.{Codec, poll_ready, send_frame}

-- `default as i32`: a window above 2^31 - 1 is negative, and so is no window. The size is kept as the
-- 32-bit pattern.
pub record FlowControl : Type 0 where
  pub window_size : ℕ
  pub available : ℕ

unfoldable pub new_flow_control : ℕ → FlowControl
new_flow_control default = record { window_size = default % 2 ^ 32; available = default % 2 ^ 32 }

unfoldable pub is_available : FlowControl → Bool
is_available f = if ltb 0 f.available then ltb f.available (2 ^ 31) else false

pub record PriorityQueue (p : Platform) : Type 0 where
  pub send_queue : p.SendQueue
  pub hash_weight : ℕ → Option ℕ
  pub hash_depend : ℕ → Option ℕ
  pub flow_control : FlowControl

-- A map with one entry changed.
abbrev pub insert : ℕ → ℕ → (ℕ → Option ℕ) → ℕ → Option ℕ
insert key value m k = if k == key then some value else m k

-- `entry(key).and_modify(|v| *v = max(*v, next)).or_insert(next)`
raise_entry : ℕ → ℕ → (ℕ → Option ℕ) → ℕ → Option ℕ
raise_entry key next m = insert key (elim (m key) [ none ↦ next | some v ↦ max v next ]) m

module _ (p : Platform) where
  unfoldable pub new : ℕ → PriorityQueue p
  unfolding new_flow_control
  new init_window_size = record {
    send_queue = p.queue_new;
    hash_weight = insert 0 255 (λ k. none);
    hash_depend = λ k. none;
    flow_control = new_flow_control init_window_size;
  }

  unfoldable pub is_queue_empty : PriorityQueue p → Bool
  is_queue_empty q = p.queue_is_empty q.send_queue

  unfoldable pub priority_recv : Priority → PriorityQueue p → PriorityQueue p
  unfolding raise_entry
  priority_recv r q =
      let weights = insert r.id r.weight q.hash_weight in
      if r.depend_id == 0 then record q { hash_weight = weights } else record q {
        hash_depend = insert r.id r.depend_id q.hash_depend;
        hash_weight = raise_entry r.depend_id (max ((r.weight + 1) % 256) 255) weights;
      }

  unfoldable pub weight : ℕ → PriorityQueue p → ℕ
  weight stream_id q = elim (q.hash_weight stream_id) [ none ↦ 0 | some w ↦ w ]

  unfoldable pub send_frames : ℕ → List (Frame p.HeaderMap) → PriorityQueue p → PriorityQueue p
  unfolding weight
  send_frames stream_id [] q = q
  send_frames stream_id (v ∷ vec) q = send_frames stream_id vec (record q {
    send_queue = p.queue_insert (record { frame = v; weight = weight stream_id q }) q.send_queue;
  })

  -- Take the first frame out and put it into the codec. With no first frame `unwrap` panics.
  send_first : PriorityQueue p → Codec p → Outcome ProtError (Unit {0}) × PriorityQueue p × Codec p
  send_first q c = elim (p.queue_pop_first q.send_queue) [
    | none ↦ (panic, q, c)
    | some (first, rest) ↦
        let (sent, c') = send_frame p first.frame c in
        let q' = record q { send_queue = rest } in
        elim sent [
          | ok n ↦ (ok tt, q', c')
          | pending ↦ (pending, q', c')
          | err e ↦ (err e, q', c')
          | panic ↦ (panic, q', c')
          | spin ↦ (spin, q', c')
        ]
  ]

  -- Does a closed window hold the first frame back? `none` is the panic of `unwrap`.
  held_back : PriorityQueue p → Option Bool
  unfolding is_available
  held_back q =
      if is_available q.flow_control then some false else elim (p.queue_first q.send_queue) [
        | none ↦ none
        | some first ↦ some (is_data first.frame)
      ]

  -- The loop of `poll_handle`; every round but the last sends a frame. Where the codec has no room the
  -- code returns `Ready(None)`, as it does at the end.
  unfoldable pub drain :
      ℕ → PriorityQueue p → Codec p → Outcome ProtError (Unit {0}) × PriorityQueue p × Codec p
  unfolding is_queue_empty held_back send_first
  drain zero q c = (spin, q, c)
  drain (suc fuel) q c =
      let (room, c') = poll_ready p c in
      elim room [
        | pending ↦ (ok tt, q, c')
        | err e ↦ (err e, q, c')
        | panic ↦ (panic, q, c')
        | spin ↦ (spin, q, c')
        | ok u ↦ elim (is_queue_empty q) [
          | true ↦ (ok tt, q, c')
          | false ↦ elim (held_back q) [
            | none ↦ (panic, q, c')
            | some true ↦ (ok tt, q, c')
            | some false ↦
                let (sent, q', c'') = send_first q c' in
                elim sent [
                  | ok v ↦ drain fuel q' c''
                  | pending ↦ (pending, q', c'')
                  | err e ↦ (err e, q', c'')
                  | panic ↦ (panic, q', c'')
                  | spin ↦ (spin, q', c'')
                ]
          ]
        ]
      ]

  unfoldable pub poll_handle :
      PriorityQueue p → Codec p → Outcome ProtError (Unit {0}) × PriorityQueue p × Codec p
  unfolding drain
  poll_handle q c = drain (suc (p.queue_len q.send_queue)) q c
