-- ===== src/Body/Receiver.antt =====
-- `InnerReceiver` of src/body.rs: the channel or the file that a body is read from. `cache_buf` is a
-- buffer whose length alone matters.
use dmeng.Prelude.{
  ℕ, ◌-◌, ◌^◌, min, Bool, true, false, ◌&&◌, ◌||◌, Option, none, some, length, take, ltb, leb,
  if◌then◌else◌,
}
use dmeng.Prelude.Poll.{Outcome, ok, err, panic}
use dmeng.Error.{Bytes, ProtError}
use dmeng.Transport.{wait, done, fail, good, bad}
use dmeng.Body.Platform.{Platform}

abbrev u64_max : ℕ
u64_max = 2 ^ 64 - 1

pub record InnerReceiver (p : Platform) : Type 0 where
  pub receiver : Option p.Channel
  pub file : Option p.File
  pub cache_len : ℕ
  pub data_size : ℕ
  pub start_pos : Option ℕ
  pub end_pos : Option ℕ

module _ (p : Platform) where
  unfoldable pub new : InnerReceiver p
  new = record {
    receiver = none;
    file = none;
    cache_len = 0;
    data_size = u64_max;
    start_pos = none;
    end_pos = none;
  }

  unfoldable pub new_receiver : p.Channel → InnerReceiver p
  new_receiver c = record {
    receiver = some c;
    file = none;
    cache_len = 4096;
    data_size = u64_max;
    start_pos = none;
    end_pos = none;
  }

  unfoldable pub new_file : p.File → ℕ → InnerReceiver p
  new_file f data_size = record {
    receiver = none;
    file = some f;
    cache_len = 4096;
    data_size = data_size;
    start_pos = none;
    end_pos = none;
  }

  unfoldable pub seek_to :
      ℕ → Option p.File → InnerReceiver p → Outcome ProtError (Unit {0}) × InnerReceiver p
  seek_to start none r = (ok tt, r)
  seek_to start (some f) r =
      let s = p.seek start f in
      let r' = record r { file = some s.1 } in
      elim s.0 [ good u ↦ (ok tt, r') | bad e ↦ (err e, r') ]

  unfoldable pub set_start_end :
      ℕ → ℕ → InnerReceiver p → Outcome ProtError (Unit {0}) × InnerReceiver p
  unfolding seek_to
  set_start_end start_pos end_pos r =
      if ltb end_pos start_pos
      then (panic, r)
      else seek_to start_pos r.file (record r {
        start_pos = some start_pos;
        end_pos = some end_pos;
        data_size = end_pos - start_pos;
      })

  is_none_option : {A : Type 0} → Option A → Bool
  is_none_option none = true
  is_none_option (some a) = false

  unfoldable pub is_none : InnerReceiver p → Bool
  unfolding is_none_option
  is_none r = is_none_option r.receiver && is_none_option r.file

  -- After a read of the file: what is beyond `data_size` is cut off.
  unfoldable pub cut : Bytes → InnerReceiver p → (Bool × Bytes) × InnerReceiver p
  cut bytes r =
      let size = length bytes in
      let read = min r.data_size size in
      (
        (ltb size r.cache_len || leb r.data_size size, take read bytes),
        record r { data_size = r.data_size - read },
      )

  recv_file : Option p.File → InnerReceiver p → Option (Option (Bool × Bytes)) × InnerReceiver p
  unfolding cut
  recv_file none r = (some none, r)
  recv_file (some f) r = elim (p.poll_read f r.cache_len) [
    | wait f' ↦ (none, record r { file = some f' })
    | done bytes f' ↦ let c = cut bytes (record r { file = some f' }) in (some (some c.0), c.1)
    | fail e f' ↦ (some none, record r { file = some f' })
  ]

  recv_from : Option p.Channel → InnerReceiver p → Option (Option (Bool × Bytes)) × InnerReceiver p
  unfolding recv_file
  recv_from (some c) r = let a = p.poll_recv c in (a.0, record r { receiver = some a.1 })
  recv_from none r = recv_file r.file r

  -- `none` is Pending.
  unfoldable pub poll_recv : InnerReceiver p → Option (Option (Bool × Bytes)) × InnerReceiver p
  unfolding recv_from
  poll_recv r = recv_from r.receiver r

  await_file : Option p.File → InnerReceiver p → Option (Bool × Bytes) × InnerReceiver p
  unfolding cut
  await_file none r = (none, r)
  await_file (some f) r =
      let a = p.read f r.cache_len in
      let r' = record r { file = some a.1 } in
      elim a.0 [ good bytes ↦ let c = cut bytes r' in (some c.0, c.1) | bad e ↦ (none, r') ]

  await_from : Option p.Channel → InnerReceiver p → Option (Bool × Bytes) × InnerReceiver p
  unfolding await_file
  await_from (some c) r = let a = p.recv c in (a.0, record r { receiver = some a.1 })
  await_from none r = await_file r.file r

  unfoldable pub recv : InnerReceiver p → Option (Bool × Bytes) × InnerReceiver p
  unfolding await_from
  recv r = await_from r.receiver r
