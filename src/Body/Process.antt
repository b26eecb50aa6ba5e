-- ===== src/Body/Process.antt =====
-- src/body.rs: the loop that reads a body, the step that moves its bytes along, and what callers take.
-- `fuel` bounds the two loops that read until the source has no more: a source that is always ready
-- keeps them going in the code too, and the answer is then `spin`. `times n` are the readings of the
-- clock in a round.
use dmeng.Prelude.{
  ℕ, zero, suc, ◌+◌, min, Bool, true, false, not, ◌&&◌, Option, none, some, [], length, take, drop,
  ltb, if◌then◌else◌,
}
use dmeng.Prelude.Poll.{Outcome, pending, ok, err, panic, spin, is_value, ◌>>>◌}
use dmeng.Error.{Bytes}
use dmeng.Layer.RateLimit
use dmeng.Layer.RateLimit.{RateLimitLayer}
use dmeng.Body.Platform.{Platform}
use dmeng.Body.Receiver
use dmeng.Body.State.{Body, check_over_limit, notify_some_read}
use dmeng.Body.Codec.{encode_write_data, decode_read_data}

pub record Times : Type 0 where
  pub polled : ℕ
  pub now : ℕ
  pub now' : ℕ
  pub called : ℕ

module _ (p : Platform) (fuel : ℕ) (times : ℕ → Times) where
  -- An error of the decoding is taken as no bytes.
  unfoldable pub cache_buffer : Bytes → Body p → Outcome ℕ ℕ × Body p
  cache_buffer buf b =
      let b' : Body p = elim b.read_buf [ none ↦ record b { read_buf = some [] } | some bin ↦ b ] in
      let r = decode_read_data p fuel buf b' in
      elim r.0 [
        | ok n ↦ (ok n, r.1)
        | err e ↦ (ok 0, r.1)
        | pending ↦ (pending, r.1)
        | panic ↦ (panic, r.1)
        | spin ↦ (spin, r.1)
      ]

  -- `unreachable!` is for a semaphore that is closed, which nothing does.
  unfoldable pub inner_poll_sem_ready : Body p → Outcome ℕ (Unit {0}) × Body p
  inner_poll_sem_ready b =
      if b.permit
      then (ok tt, b)
      else let a = p.poll_acquire b.sem in
        if a.0
        then (ok tt, record b { permit = true; sem = a.1 })
        else (pending, record b { sem = a.1 })

  unfoldable pub rate_ready : Times → Body p → Bool × Body p
  rate_ready t b = elim b.rate_limit [
    | none ↦ (true, b)
    | some l ↦
        let r = RateLimit.poll_ready p.sleep_pending p.mul_ratio t.polled t.now t.now' l in
        (is_value r.0, record b { rate_limit = some r.1 })
  ]

  unfoldable pub rate_call : Times → ℕ → Body p → Body p
  rate_call t count b = elim b.rate_limit [
    | none ↦ b
    | some l ↦ record b {
      rate_limit = some (RateLimit.poll_call p.sleep_pending p.mul_ratio t.called count l);
    }
  ]

  -- What follows once a message's bytes are in the buffer; `next` is the next round.
  unfoldable pub after_message :
      (Body p → Outcome ℕ Bool × Body p)
      → Times
      → Bool × Bytes
      → ℕ
      → Body p
      → Outcome ℕ Bool × Body p
  unfolding rate_call
  after_message next t m size b =
      let c = rate_call t (length m.1) b in elim m.0 [ true ↦ (ok true, c) | false ↦ next c ]

  -- What follows a poll of the receiver; the flag is `has_change`.
  unfoldable pub received :
      (Body p → Outcome ℕ Bool × Body p)
      → Bool
      → Times
      → Option (Option (Bool × Bytes))
      → Body p
      → Outcome ℕ Bool × Body p
  unfolding after_message
  received next has_change t none b = (ok has_change, b)
  received next has_change t (some none) b = (ok true, record b { is_end = true })
  received next has_change t (some (some m)) b =
      cache_buffer m.1 (record b { is_end = m.0 }) >>> after_message next t m

  unfoldable pub read_round :
      (Body p → Outcome ℕ Bool × Body p) → Bool → Times → Bool → Body p → Outcome ℕ Bool × Body p
  unfolding received
  read_round next has_change t false b = (ok has_change, b)
  read_round next has_change t true b =
      let r = Receiver.poll_recv p b.receiver in
      received next has_change t r.0 (record b { receiver = r.1 })

  -- The loop of `inner_poll_read`.
  unfoldable pub read_loop : ℕ → Bool → Body p → Outcome ℕ Bool × Body p
  unfolding rate_ready read_round
  read_loop zero has_change b = (spin, b)
  read_loop (suc n) has_change b =
      let q = rate_ready (times n) b in read_round (read_loop n true) has_change (times n) q.0 q.1

  unfoldable pub inner_poll_read : Body p → Outcome ℕ Bool × Body p
  inner_poll_read b =
      if b.is_end
      then (ok false, b)
      else inner_poll_sem_ready b >>> λ u c. read_loop fuel false c >>> λ has_change d.
          (ok has_change, if has_change then check_over_limit p d else d)

  unfoldable pub take_origin : Body p → Outcome ℕ ℕ × Body p
  take_origin b = elim b.origin_buf [
    | none ↦ (ok 0, b)
    | some origin ↦ decode_read_data p fuel origin (record b { origin_buf = none })
  ]

  unfoldable pub encode_read : Body p → Outcome ℕ (Unit {0}) × Body p
  encode_read b = elim b.read_buf [
    | none ↦ (ok tt, b)
    | some bin ↦
        (if ltb 0 (length bin)
          then encode_write_data p bin (record b { read_buf = none })
          else (ok tt, record b { read_buf = none }))
        >>> λ u c. (ok tt, notify_some_read p (record c { read_buf = some [] }))
  ]

  unfoldable pub finish_encode : Body p → Outcome ℕ (Unit {0}) × Body p
  finish_encode b = if b.is_end then encode_write_data p [] b else (ok tt, b)

  -- The flag says whether there is a context to poll with.
  unfoldable pub process_data : Bool → Body p → Outcome ℕ ℕ × Body p
  unfolding take_origin encode_read finish_encode
  process_data has_cx b =
      if b.is_process_end
      then (ok 0, b)
      else take_origin b >>> λ size c.
          (if has_cx then inner_poll_read c else (ok false, c)) >>> λ has_change d.
          encode_read d >>> λ u e.
          finish_encode e >>> λ u f. (ok 0, record f { is_process_end = f.is_end })

  -- The count, what is appended to the caller's buffer, and the body.
  unfoldable pub read_data : Body p → Outcome ℕ ℕ × Bytes × Body p
  read_data b =
      let r = process_data false b in
      let c = r.1 in
      elim r.0 [
        | ok n ↦
            (ok (length c.cache_body_data), c.cache_body_data, record c { cache_body_data = [] })
        | pending ↦
            (ok (length c.cache_body_data), c.cache_body_data, record c { cache_body_data = [] })
        | err e ↦ (err e, [], c)
        | panic ↦ (panic, [], c)
        | spin ↦ (spin, [], c)
      ]

  unfoldable pub poll_encode_write : Body p → Outcome ℕ ℕ × Bytes × Body p
  poll_encode_write b =
      let r = process_data true b in
      elim r.0 [
        | ok n ↦ read_data r.1
        | pending ↦ (pending, [], r.1)
        | err e ↦ (err e, [], r.1)
        | panic ↦ (panic, [], r.1)
        | spin ↦ (spin, [], r.1)
      ]

  -- `AsyncRead` with the room of the caller's buffer.
  unfoldable pub poll_read : ℕ → Body p → Outcome ℕ (Unit {0}) × Bytes × Body p
  poll_read room b =
      let r = process_data true b in
      let c = r.1 in
      let len = min (length c.cache_body_data) room in
      elim r.0 [
        | ok n ↦ (
          ok tt,
          take len c.cache_body_data,
          record c { cache_body_data = drop len c.cache_body_data },
        )
        | pending ↦ (pending, [], c)
        | err e ↦ (err e, [], c)
        | panic ↦ (panic, [], c)
        | spin ↦ (spin, [], c)
      ]

  -- `let _ = …`: an error is dropped, a panic is not.
  ignored : Outcome ℕ ℕ × Body p → Outcome ℕ (Unit {0}) × Body p
  ignored (ok n, b) = (ok tt, b)
  ignored (err e, b) = (ok tt, b)
  ignored (pending, b) = (ok tt, b)
  ignored (panic, b) = (panic, b)
  ignored (spin, b) = (spin, b)

  unfoldable pub read_now : Body p → Outcome ℕ Bytes × Body p
  unfolding ignored
  read_now b = ignored (process_data false b) >>> λ u c.
      (ok c.cache_body_data, record c { cache_body_data = [] })

  -- The loops of `wait_all` and `read_all`; `none` of an awaited receive ends both.
  wait_loop : ℕ → ℕ → Body p → Outcome ℕ ℕ × Body p
  wait_loop zero size b = (spin, b)
  wait_loop (suc n) size b =
      let r = Receiver.recv p b.receiver in
      elim r.0 [
        | none ↦ (ok size, record b { receiver = r.1 })
        | some m ↦ cache_buffer m.1 (record b { receiver = r.1; is_end = m.0 }) >>> λ got c.
            (if m.0 then (ok (size + got), c) else wait_loop n (size + got) c)
      ]

  unfoldable pub wait_all : Body p → Outcome ℕ ℕ × Body p
  unfolding ignored wait_loop
  wait_all b = ignored (process_data false b) >>> λ u c.
      (if not c.is_end && not (Receiver.is_none p c.receiver)
        then wait_loop fuel 0 c
        else (ok 0, c))

  -- It sets `is_end` after the bytes went through `cache_buffer`, unlike `wait_all`.
  read_all_loop : ℕ → Body p → Outcome ℕ (Unit {0}) × Body p
  read_all_loop zero b = (spin, b)
  read_all_loop (suc n) b =
      let r = Receiver.recv p b.receiver in
      elim r.0 [
        | none ↦ (ok tt, record b { receiver = r.1 })
        | some m ↦ cache_buffer m.1 (record b { receiver = r.1 }) >>> λ got c.
            (if m.0
              then (ok tt, record c { is_end = true })
              else read_all_loop n (record c { is_end = false }))
      ]

  unfoldable pub read_all : Body p → Outcome ℕ (Option ℕ) × Bytes × Body p
  unfolding ignored read_all_loop
  read_all b =
      let r = ignored (process_data false b) >>> λ u c.
      (if not c.is_end && not (Receiver.is_none p c.receiver)
        then read_all_loop fuel c
        else (ok tt, c))
      >>> λ u c. ignored (process_data false c) in
      let a = read_data r.1 in
      elim r.0 [
        | ok u ↦ elim a.0 [
          | ok size ↦ (ok (some size), a.1, a.2)
          | err e ↦ (ok none, a.1, a.2)
          | pending ↦ (pending, a.1, a.2)
          | panic ↦ (panic, a.1, a.2)
          | spin ↦ (spin, a.1, a.2)
        ]
        | err e ↦ (err e, [], r.1)
        | pending ↦ (pending, [], r.1)
        | panic ↦ (panic, [], r.1)
        | spin ↦ (spin, [], r.1)
      ]
