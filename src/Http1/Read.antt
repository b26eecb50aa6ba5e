-- ===== src/Http1/Read.antt =====
-- Reading of src/http1/io.rs: the transport into the stream, the stream into a body, and a body made.
use dmeng.Prelude.{
  ℕ, zero, suc, ◌+◌, ◌-◌, ◌^◌, Bool, true, false, not, ◌&&◌, Option, none, some, length, ◌==◌,
  if◌then◌else◌,
}
use dmeng.Prelude.Poll.{Outcome, pending, ok, err, panic, spin, ◌>>>◌}
use dmeng.Error.{ProtError, io_error, extension}
use dmeng.Transport.{wait, done, fail}
use dmeng.SendStream
use dmeng.SendStream.{SendStream}
use dmeng.Body.State
use dmeng.Body.State.{Body}
use dmeng.Http1.Platform.{Platform}
use dmeng.Http1.IoBuffer.{SendStatus, ConnectionInfo, IoBuffer, is_active_close, is_empty}

abbrev pub usize_max : ℕ
usize_max = 2 ^ 64 - 1

-- What is left of a body's length: without one, and with a length of none where there may be a body, it
-- is not bounded.
unfoldable pub left_of : Option ℕ → Bool → ℕ
left_of none may_have_body = usize_max
left_of (some n) may_have_body = if n == 0 && may_have_body then usize_max else n

abbrev pub is_zero : Option ℕ → Bool
is_zero none = false
is_zero (some n) = n == 0

module _ (p : Platform) where
  unfoldable pub poll_read : IoBuffer p → Outcome ProtError ℕ × IoBuffer p
  poll_read b = elim (p.poll_read b.io p.room) [
    | wait io ↦ (pending, record b { io = io })
    | fail e io ↦ (err (io_error e), record b { io = io })
    | done bytes io ↦
        let s = SendStream.process_data p.body.helper (SendStream.put_slice bytes b.send_stream) in
        let b' = record b { io = io; send_stream = s.1 } in
        elim s.0 [
          | ok u ↦ (ok (length bytes), b')
          | err e ↦ (err e, b')
          | pending ↦ (pending, b')
          | panic ↦ (panic, b')
          | spin ↦ (spin, b')
        ]
  ]

  -- A read of nothing is the answer whatever was read before it.
  unfoldable pub read_all_loop : ℕ → ℕ → IoBuffer p → Outcome ProtError ℕ × IoBuffer p
  read_all_loop zero size b = (spin, b)
  read_all_loop (suc n) size b =
      let r = poll_read b in
      elim r.0 [
        | ok zero ↦ (ok 0, r.1)
        | ok (suc k) ↦ read_all_loop n (size + suc k) r.1
        | pending ↦ (if size == 0 then pending else ok size, r.1)
        | err e ↦ (err e, r.1)
        | panic ↦ (panic, r.1)
        | spin ↦ (spin, r.1)
      ]

  unfoldable pub poll_read_all : ℕ → IoBuffer p → Outcome ProtError ℕ × IoBuffer p
  poll_read_all fuel b = read_all_loop fuel 0 b

  set_read_finish : Bool → Bool → ConnectionInfo p → ConnectionInfo p
  set_read_finish is_req end c =
      if is_req
      then record c { req_status = record (c.req_status) { is_read_finish = end } }
      else record c { res_status = record (c.res_status) { is_read_finish = end } }

  -- The body's bytes go to its channel, each round once a place is reserved.
  deal_loop : ℕ → Bool → p.Sender → IoBuffer p → Outcome ProtError Bool × IoBuffer p
  unfolding set_read_finish
  deal_loop zero is_req sender b = (spin, b)
  deal_loop (suc n) is_req sender b =
      if not (p.try_reserve sender)
      then (err (extension "sender error"), b)
      else let r = SendStream.read_data p.body.helper b.send_stream in
        let b' = record b { send_stream = r.2 } in
        elim r.0 [
          | ok zero ↦ (ok false, b')
          | ok (suc k) ↦
              let sender' = p.send (r.2.is_end, r.1) sender in
              deal_loop n is_req sender' (record b' {
                inner =
                    set_read_finish is_req r.2.is_end
                      (record (b.inner) { read_sender = some sender' });
              })
          | pending ↦ (pending, b')
          | err e ↦ (err e, b')
          | panic ↦ (panic, b')
          | spin ↦ (spin, b')
        ]

  unfoldable pub do_deal_body : ℕ → Bool → IoBuffer p → Outcome ProtError Bool × IoBuffer p
  unfolding deal_loop
  do_deal_body fuel is_req b = elim b.inner.read_sender [
    | some sender ↦ deal_loop fuel is_req sender b
    | none ↦
        let closing = is_active_close p b.inner && is_empty b.write_buf in
        (ok (if closing then true else b.inner.is_delay_close), b)
  ]

  -- The body of a message whose header was read, with the sending half of its channel.
  unfoldable pub build_body :
      SendStatus → SendStream → Outcome ProtError (Body p.body × Option p.Sender) × SendStream
  build_body status s =
      let s' =
        SendStream.set_chunked status.is_chunked
          (SendStream.set_left_body status.left_read_body_len s) in
      if status.left_read_body_len == 0
      then (ok (State.empty p.body, none), s')
      else SendStream.process_data p.body.helper s' >>> λ u t.
          (let r = SendStream.read_data p.body.helper t in
            let ends = p.channel 30 in
            (r.0, r.2) >>> λ n v. (ok (State.new p.body ends.1 r.1 v.is_end, some ends.0), v))
