-- ===== src/Http1/Closing.antt =====
-- When a connection of src/http1/io.rs is closed: what is never seen, and what is lost.
use dmeng.Prelude.{
  ℕ, suc, ◌≡◌, false, ◌&&◌, ◌||◌, List, [], ◌∷◌, none, arith, Bool-cases, inl, inr, ◌⊎◌, refl, ◌∙◌,
}
use dmeng.Prelude.Poll.{
  Outcome, pending, ok, err, panic, spin, split, is_pending, is_ok, is_err, is_panic, is_spin,
  ◌>>>◌, >>>_keeps,
}
use dmeng.Error.{Bytes, ProtError}
use dmeng.Transport.{Result}
use dmeng.Body.State.{Body}
use dmeng.Body.Process.{Times}
use dmeng.Http1.Platform.{Platform}
use dmeng.Http1.IoBuffer.{
  SendStatus, is_empty, tail, clear, clear_write, Message, IoBuffer, is_active_close,
  check_finish_status,
}
use dmeng.Http1.Write.{
  encode_header, encode_body, encode_message, poll_write, encode_messages, write_out,
  front_response, finish_response, front_request, finish_request,
}
use dmeng.Http1.Read.{poll_read, read_all_loop, poll_read_all}
use dmeng.Http1.Request.{poll_request, read_on}

module _ (p : Platform) (fuel : ℕ) (times : ℕ → Times) where
  abbrev Unsent : IoBuffer p → Type 0
  Unsent b = b.inner.req_status.is_send_finish ≡ false

  check_finish_status-Unsent :
      (now : ℕ) (b : IoBuffer p) → Unsent b → Unsent (check_finish_status p now b)
  unfolding check_finish_status clear
  check_finish_status-Unsent now b h =
      let ended =
        (is_empty b.inner.req_list || b.inner.req_status.is_send_finish)
        && (is_empty b.inner.res_list || b.inner.res_status.is_send_finish) in
      elim (Bool-cases ended) [ inl e ↦ rw e refl | inr e ↦ rw e h ]

  finish_response-Unsent :
      (now : ℕ) (b : IoBuffer p) → Unsent b → Unsent (finish_response p fuel times now b)
  unfolding finish_response clear_write
  finish_response-Unsent now b h =
      let c = record b {
        inner = record (b.inner) {
          res_list = tail b.inner.res_list;
          res_status = clear_write b.inner.res_status;
        };
      } in
      elim (Bool-cases b.inner.res_status.is_send_finish) [
        | inl e ↦ rw e (check_finish_status-Unsent now c h)
        | inr e ↦ rw e h
      ]

  finish_request-Unsent : (now : ℕ) (b : IoBuffer p) → Unsent (finish_request p fuel times now b)
  unfolding finish_request clear_write
  finish_request-Unsent now b =
      let c = record b {
        inner = record (b.inner) {
          req_list = tail b.inner.req_list;
          req_status = clear_write b.inner.req_status;
        };
      } in
      elim (Bool-cases b.inner.req_status.is_send_finish) [
        | inl e ↦ rw e (check_finish_status-Unsent now c refl)
        | inr e ↦ rw e refl
      ]

  front_response-Unsent :
      (ms : List (Message p p.ResponseHead)) (b : IoBuffer p)
      → Unsent b
      → Unsent (front_response p fuel times ms b).1
  unfolding front_response
  front_response-Unsent [] b h = h
  front_response-Unsent (m ∷ ms) b h = h

  write_out-Unsent : (b : IoBuffer p) → Unsent b → Unsent (write_out p fuel times b).1
  unfolding write_out
  write_out-Unsent b h = elim (Bool-cases (is_empty b.write_buf)) [
    | inl e ↦ rw e h
    | inr e ↦ grind (arith, e, h)
  ]

  encode_header-keeps :
      (r : Result Bytes) (s : SendStatus)
      → (encode_header p fuel times r s).1.is_send_finish ≡ s.is_send_finish
  unfolding encode_header
  encode_header-keeps r s = ground arith

  encode_body-keeps :
      (s : SendStatus) (b : Body p.body)
      → (encode_body p fuel times s b).1.is_send_finish ≡ s.is_send_finish
  unfolding encode_body
  encode_body-keeps s b = ground arith

  encode_message-Unsent :
      {H : Type 0} (header : Result Bytes) (s : SendStatus) (m : Message p H)
      → s.is_send_finish ≡ false
      → let r = encode_message p fuel times header s m in
        (r.0 ≡ ok tt) ⊎ (r.1.is_send_finish ≡ false)
  unfolding encode_message
  encode_message-Unsent header s m h =
      let a = encode_header p fuel times header s in
      let b = encode_body p fuel times a.1 m.body in
      let first = encode_header-keeps header s in
      let second = encode_body-keeps a.1 m.body in
      elim (split a.0) [
        | is_ok u e ↦ elim (split b.0) [
          | is_ok v f ↦ inl (rw (encode_message, e) f)
          | is_err x f ↦ inr (rw (encode_message, e, f) (ground (arith, second, first)))
          | is_pending f ↦ inr (rw (encode_message, e, f) (ground (arith, second, first)))
          | is_panic f ↦ inr (rw (encode_message, e, f) (ground (arith, second, first)))
          | is_spin f ↦ inr (rw (encode_message, e, f) (ground (arith, second, first)))
        ]
        | is_err x e ↦ inr (rw (encode_message, e) (first ∙ h))
        | is_pending e ↦ inr (rw (encode_message, e) (first ∙ h))
        | is_panic e ↦ inr (rw (encode_message, e) (first ∙ h))
        | is_spin e ↦ inr (rw (encode_message, e) (first ∙ h))
      ]

  -- A request that is not encoded whole leaves the flag as it is.
  front_request-Unsent :
      (ms : List (Message p p.RequestHead)) (b : IoBuffer p)
      → Unsent b
      → let r = front_request p fuel times ms b in (r.0 ≡ ok tt) ⊎ Unsent r.1
  unfolding front_request
  front_request-Unsent [] b h = inl refl
  front_request-Unsent (m ∷ ms) b h =
      encode_message-Unsent (p.encode_request_header m.head) b.inner.req_status m h

  finished-Unsent :
      (now : ℕ) (r : Outcome ProtError (Unit {0}) × IoBuffer p)
      → (r.0 ≡ ok tt) ⊎ Unsent r.1
      → Unsent (r >>> λ u e. (ok (tt {0}), finish_request p fuel times now e)).1
  finished-Unsent now (ok u, s) q = finish_request-Unsent now s
  finished-Unsent now (pending, s) (inl e) = cc
  finished-Unsent now (pending, s) (inr h) = h
  finished-Unsent now (err x, s) (inl e) = cc
  finished-Unsent now (err x, s) (inr h) = h
  finished-Unsent now (panic, s) (inl e) = cc
  finished-Unsent now (panic, s) (inr h) = h
  finished-Unsent now (spin, s) (inl e) = cc
  finished-Unsent now (spin, s) (inr h) = h

  encode_messages-Unsent :
      (now : ℕ) (b : IoBuffer p) → Unsent b → Unsent (encode_messages p fuel times now b).1
  unfolding encode_messages
  encode_messages-Unsent now b h =
      >>>_keeps Unsent (front_response p fuel times b.inner.res_list b) _
        (front_response-Unsent b.inner.res_list b h)
        (λ u c k.
          let d = finish_response p fuel times now c in
          finished-Unsent now (front_request p fuel times d.inner.req_list d)
            (front_request-Unsent d.inner.req_list d (finish_response-Unsent now c k)))

  poll_write-Unsent :
      (now : ℕ) (b : IoBuffer p) → Unsent b → Unsent (poll_write p fuel times now b).1
  unfolding poll_write
  poll_write-Unsent now b h =
      >>>_keeps Unsent (encode_messages p fuel times now b) _ (encode_messages-Unsent now b h)
        (λ u c k. write_out-Unsent c k)

  -- From a connection whose request is not marked as sent, which is how one starts, a poll of the writing
  -- leaves none that is to be closed actively, whatever it sends, how it ends, and whether the request was
  -- to be kept alive; and the request is again not marked as sent.
  pub poll_write-is_active_close :
      (now : ℕ) (b : IoBuffer p)
      → b.inner.req_status.is_send_finish ≡ false
      → let c = (poll_write p fuel times now b).1 in
        (is_active_close p c.inner ≡ false) × (c.inner.req_status.is_send_finish ≡ false)
  unfolding is_active_close
  poll_write-is_active_close now b h = let k = poll_write-Unsent now b h in (rw k, k)

  read_all-end :
      (n k : ℕ) (b c d : IoBuffer p)
      → poll_read p b ≡ (ok (suc k), c)
      → poll_read p c ≡ (ok 0, d)
      → poll_read_all p (suc (suc n)) b ≡ (ok 0, d)
  unfolding poll_read_all read_all_loop
  read_all-end n k b c d first second = grind (arith, first, second)

  -- A connection with nothing to write whose transport gives bytes and, asked again in the same poll, its
  -- end: the poll answers that there is no request, and the bytes stay where they are, unread.
  pub poll_request-end_loses :
      (now n k : ℕ) (b c d : IoBuffer p)
      → poll_write p fuel times now b ≡ (ok 0, b)
      → b.inner.req_status.is_send_finish ≡ false
      → poll_read p b ≡ (ok (suc k), c)
      → poll_read p c ≡ (ok 0, d)
      → fuel ≡ suc (suc n)
      → poll_request p fuel times now b ≡ (ok none, d)
  unfolding poll_request read_on poll_read_all read_all_loop is_active_close
  poll_request-end_loses now n k b c d idle unsent first second enough =
      let ended : poll_read_all p fuel b ≡ (ok 0, d) =
        rw enough (read_all-end n k b c d first second) in
      let on : read_on p fuel times b ≡ (ok none, d) = grind (arith, ended) in
      grind (arith, idle, on, unsent)
