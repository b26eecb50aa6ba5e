-- ===== src/Body/Plain.antt =====
-- A chunked body of src/body.rs that is not compressed and read from a channel: what one poll does.
pub mod Loop
use dmeng.Prelude.{
  ℕ, zero, suc, ◌+◌, ◌≤◌, ◌<◌, ◌≡◌, Bool, true, false, Option, none, some, List, [], ◌∷◌, ◌++◌,
  append-nil, append_assoc, length, ◌==◌, if◌then◌else◌, arith, refl, sym, ap, ◌∙◌, Bool-cases,
  Option-cases, inl, inr,
}
use mathlib.Core.Path.{subst}
use dmeng.Layer.RateLimit
use dmeng.Layer.RateLimit.{RateLimitLayer}
use dmeng.Prelude.Poll.{is_value, Outcome, pending, ok, err, panic, spin, ◌>>>◌}
use dmeng.Prelude.{leb, ◌&&◌, not, ◌==◌}
use dmeng.Error.{Bytes}
use dmeng.Body.Platform.{Platform, SemaphoreLaws, ChannelLaws}
use dmeng.Body.Receiver
use dmeng.Body.Receiver.{InnerReceiver}
use dmeng.Body.State.{Body, copy_now, check_over_limit, notify_some_read}
use dmeng.Body.Codec.{decode_read_data, encode_write_data}
use dmeng.Body.Process.{
  rate_ready, rate_call, Times, cache_buffer, inner_poll_sem_ready, read_loop, inner_poll_read,
  process_data,
}

abbrev all_data : List (Bool × Bytes) → Bytes
all_data [] = []
all_data (m ∷ ms) = m.1 ++ all_data ms

module _ (p : Platform) (laws : ChannelLaws p) (sem_laws : SemaphoreLaws p) where
  -- What the channel still holds.
  abbrev pub messages : InnerReceiver p → List (Bool × Bytes)
  messages r = elim r.receiver [ none ↦ [] | some c ↦ laws.contents c ]

  abbrev pub waiting : InnerReceiver p → Bytes
  waiting r = all_data (messages r)

  abbrev pub held : Body p → ℕ
  held b = if b.permit then 1 else 0

  pub record IsPlain (b : Body p) : Type 0 where
    pub no_origin_method : b.origin_compress_method ≡ 0
    pub no_now_method : b.now_compress_method ≡ 0
    pub chunked : b.is_chunked ≡ true
    pub no_file : b.receiver.file ≡ none
    pub free : 0 < p.available_permits b.sem + held b

  -- From one state to another nothing was put out, and no byte lost.
  pub record Reads (b c : Body p) : Type 0 where
    pub plain : IsPlain c
    pub same_cache : c.cache_body_data ≡ b.cache_body_data
    pub same_origin : c.origin_buf ≡ b.origin_buf
    pub same_bytes : copy_now p c ++ waiting c.receiver ≡ copy_now p b ++ waiting b.receiver
    pub fewer : length (messages c.receiver) ≤ length (messages b.receiver)

  pub Reads-refl : (b : Body p) → IsPlain b → Reads b b
  Reads-refl b plain = record {
    plain = plain;
    same_cache = refl;
    same_origin = refl;
    same_bytes = refl;
    fewer = omega arith;
  }

  pub Reads-trans : (b c d : Body p) → Reads b c → Reads c d → Reads b d
  Reads-trans b c d f g = record {
    plain = g.plain;
    same_cache = g.same_cache ∙ f.same_cache;
    same_origin = g.same_origin ∙ f.same_origin;
    same_bytes = g.same_bytes ∙ f.same_bytes;
    fewer = omega (arith, f.fewer, g.fewer);
  }

  module _ (fuel : ℕ) (times : ℕ → Times) where
    -- Without a method the bytes are appended as they are.
    cache_buffer-plain :
        (bytes : Bytes) (b : Body p)
        → IsPlain b
        → cache_buffer p fuel times bytes b
          ≡ (ok (length bytes), record b { read_buf = some (copy_now p b ++ bytes) })
    unfolding cache_buffer decode_read_data copy_now
    cache_buffer-plain bytes b plain = elim (Option-cases b.read_buf) [
      | inl e ↦ grind (arith, plain.no_origin_method)
      | inr (x, e) ↦ grind (arith, plain.no_origin_method)
    ]

    -- A permit is always to be had.
    sem_ready-plain :
        (b : Body p)
        → IsPlain b
        → let r = inner_poll_sem_ready p fuel times b in (r.0 ≡ ok tt) × Reads b r.1
    unfolding inner_poll_sem_ready copy_now
    sem_ready-plain b plain = elim (Bool-cases b.permit) [
      | inl e ↦
          let eq : inner_poll_sem_ready p fuel times b ≡ (ok tt, b) = rw e in
          subst (λ r. (r.0 ≡ ok tt) × Reads b r.1) (sym eq) (refl, Reads-refl b plain)
      | inr e ↦
          let some_left : 0 < p.available_permits b.sem = ground (arith, plain.free) in
          let law = sem_laws.acquire_lem b.sem some_left in
          let c = record b { permit = true; sem = (p.poll_acquire b.sem).1 } in
          let eq : inner_poll_sem_ready p fuel times b ≡ (ok tt, c) = rw (e, law.0) in
          let plain' : IsPlain c = record {
            no_origin_method = plain.no_origin_method;
            no_now_method = plain.no_now_method;
            chunked = plain.chunked;
            no_file = plain.no_file;
            free = omega arith;
          } in
          subst (λ r. (r.0 ≡ ok tt) × Reads b r.1) (sym eq)
            (
              refl,
              record {
                plain = plain';
                same_cache = refl;
                same_origin = refl;
                same_bytes = refl;
                fewer = omega arith;
              },
            )
    ]

    rate_ready-shape :
        (t : Times) (b : Body p)
        → (q : Bool) × (l : Option RateLimitLayer) × (rate_ready p fuel times t b
            ≡ (q, record b { rate_limit = l }))
    unfolding rate_ready
    rate_ready-shape t b = elim (Option-cases b.rate_limit) [
      | inl e ↦ (true, none, rw e)
      | inr (l, e) ↦
          let r = RateLimit.poll_ready p.sleep_pending p.mul_ratio t.polled t.now t.now' l in
          (is_value r.0, some r.1, rw e)
    ]

    rate_call-shape :
        (t : Times) (count : ℕ) (b : Body p)
        → (l : Option RateLimitLayer) × (rate_call p fuel times t count b
            ≡ record b { rate_limit = l })
    unfolding rate_call
    rate_call-shape t count b = elim (Option-cases b.rate_limit) [
      | inl e ↦ (none, rw e)
      | inr (l, e) ↦ (some (RateLimit.poll_call p.sleep_pending p.mul_ratio t.called count l), rw e)
    ]

  -- What a receive may answer of a channel, and what it leaves.
  data Taken (r : InnerReceiver p) (a : Option (Option (Bool × Bytes)) × InnerReceiver p)
      : Type 0 where
    waits : a.0 ≡ none → a.1.file ≡ none → messages a.1 ≡ messages r → Taken r a
    ends : a.0 ≡ some none → a.1.file ≡ none → messages a.1 ≡ messages r → Taken r a
    takes :
        (m : Bool × Bytes)
        → a.0 ≡ some (some m)
        → a.1.file ≡ none
        → messages r ≡ m ∷ messages a.1
        → Taken r a

  answer-Taken :
      (r : InnerReceiver p) (c d : p.Channel) (a : Option (Option (Bool × Bytes)))
      → r.file ≡ none
      → r.receiver ≡ some c
      → p.poll_recv c ≡ (a, d)
      → Taken r (a, record r { receiver = some d })
  answer-Taken r c d none no_file e h = waits refl no_file (sym (laws.recv_wait c d h) ∙ rw e)
  answer-Taken r c d (some none) no_file e h = ends refl no_file (sym (laws.recv_end c d h) ∙ rw e)
  answer-Taken r c d (some (some m)) no_file e h =
      takes m refl no_file (rw e (laws.recv_some c d m h))

  poll_recv-Taken : (r : InnerReceiver p) → r.file ≡ none → Taken r (Receiver.poll_recv p r)
  unfolding Receiver.poll_recv
  poll_recv-Taken r no_file = elim (Option-cases r.receiver) [
    | inl e ↦
        let eq : Receiver.poll_recv p r ≡ (some none, r) = rw (e, no_file) in
        subst (Taken r) (sym eq) (ends refl no_file refl)
    | inr (c, e) ↦
        let a = p.poll_recv c in
        let eq : Receiver.poll_recv p r ≡ (a.0, record r { receiver = some a.1 }) = rw e in
        subst (Taken r) (sym eq) (answer-Taken r c a.1 a.0 no_file e refl)
  ]

  module _ (fuel : ℕ) (times : ℕ → Times) where
    IsPlain-move :
        (b : Body p) (l : Option RateLimitLayer) (r : InnerReceiver p) (e : Bool)
        → IsPlain b
        → r.file ≡ none
        → IsPlain (record b { rate_limit = l; receiver = r; is_end = e })
    IsPlain-move b l r e plain no_file = record {
      no_origin_method = plain.no_origin_method;
      no_now_method = plain.no_now_method;
      chunked = plain.chunked;
      no_file = no_file;
      free = plain.free;
    }

    -- The receiver after a message, its bytes appended.
    Reads-append :
        (b : Body p) (l : Option RateLimitLayer) (r : InnerReceiver p) (m : Bool × Bytes)
        → IsPlain b
        → r.file ≡ none
        → messages b.receiver ≡ m ∷ messages r
        → Reads b (record b {
          rate_limit = l;
          receiver = r;
          is_end = m.0;
          read_buf = some (copy_now p b ++ m.1);
        })
    unfolding copy_now
    Reads-append b l r m plain no_file taken = record {
      plain = record {
        no_origin_method = plain.no_origin_method;
        no_now_method = plain.no_now_method;
        chunked = plain.chunked;
        no_file = no_file;
        free = plain.free;
      };
      same_cache = refl;
      same_origin = refl;
      same_bytes =
          append_assoc (copy_now p b) m.1 (waiting r)
          ∙ ap (λ ms. copy_now p b ++ all_data ms) (sym taken);
      fewer = rw taken (omega arith);
    }

    Reads-same :
        (b : Body p) (l : Option RateLimitLayer) (r : InnerReceiver p) (e : Bool)
        → IsPlain b
        → r.file ≡ none
        → messages r ≡ messages b.receiver
        → Reads b (record b { rate_limit = l; receiver = r; is_end = e })
    unfolding copy_now
    Reads-same b l r e plain no_file same = record {
      plain = IsPlain-move b l r e plain no_file;
      same_cache = refl;
      same_origin = refl;
      same_bytes = ap (λ ms. copy_now p b ++ all_data ms) same;
      fewer = rw same (omega arith);
    }

  -- A change of the permit and the semaphore alone that leaves a permit to be had.
  Reads-permit :
      (b : Body p) (permit : Bool) (sem : p.Semaphore)
      → IsPlain b
      → 0 < p.available_permits sem + (if permit then 1 else 0)
      → Reads b (record b { permit = permit; sem = sem })
  unfolding copy_now
  Reads-permit b permit sem plain free = record {
    plain = record {
      no_origin_method = plain.no_origin_method;
      no_now_method = plain.no_now_method;
      chunked = plain.chunked;
      no_file = plain.no_file;
      free = free;
    };
    same_cache = refl;
    same_origin = refl;
    same_bytes = refl;
    fewer = omega arith;
  }

  check_over_limit-Reads : (b : Body p) → IsPlain b → Reads b (check_over_limit p b)
  unfolding check_over_limit
  check_over_limit-Reads b plain = elim (Option-cases b.read_buf) [
    | inl e ↦ subst (Reads b) (rw e) (Reads-refl b plain)
    | inr (bin, e) ↦ elim (Bool-cases (leb b.max_read_buf (length bin) && b.permit)) [
      | inl over ↦
          subst (Reads b) (rw (e, over)) (
            Reads-permit b false (p.release b.sem) plain
              (omega (arith, sem_laws.release_lem b.sem)))
      | inr under ↦ subst (Reads b) (rw (e, under)) (Reads-refl b plain)
    ]
  ]

  pub notify_some_read-Reads : (b : Body p) → IsPlain b → Reads b (notify_some_read p b)
  unfolding notify_some_read
  notify_some_read-Reads b plain =
      elim (Bool-cases (not b.permit && (p.available_permits b.sem == 0))) [
        | inl empty ↦ subst (Reads b) (rw empty) (
            Reads-permit b b.permit (p.add_permits 1 b.sem) plain
              (omega (arith, sem_laws.add_lem 1 b.sem)))
        | inr some_left ↦ subst (Reads b) (rw some_left) (Reads-refl b plain)
      ]
