-- ===== src/Body/Examples.antt =====
-- Runs of src/body.rs: a channel is the list of its messages, a file its bytes, a semaphore its permits.
use dmeng.Prelude.{
  ℕ, zero, suc, ◌+◌, ◌≤◌, ◌<◌, ◌≡◌, Bool, true, false, Option, none, some, List, [], ◌∷◌, ◌++◌,
  length, take, drop, refl, arith,
}
use dmeng.Prelude.Poll.{ok, panic}
use dmeng.Error.{Bytes}
use dmeng.Transport.{done, good}
use dmeng.SendStream
use dmeng.SendStream.{put_slice}
use dmeng.SendStream.Examples.{simple, simple-ChunkLaws, chunked}
use dmeng.Body.Platform.{Platform, SemaphoreLaws, ChannelLaws}
use dmeng.Body.Receiver
use dmeng.Body.Receiver.{set_start_end}
use dmeng.Body.State
use dmeng.Body.State.{Body, check_over_limit}
use dmeng.Body.Codec.{decode_read_data}
use dmeng.Body.Process.{Times, inner_poll_sem_ready}
use dmeng.Body.Plain.{IsPlain}
use dmeng.Body.Output.{Outputs, to_come}
use dmeng.Body.Output.Polls.{polls, polls-Outputs}
use dmeng.Body.RoundTrip.{process_data-polls}
use dmeng.Body.Range.{cuts, set_start_end-cuts}

abbrev pub next_message : List (Bool × Bytes) → Option (Option (Bool × Bytes)) × List (Bool × Bytes)
next_message [] = (none, [])
next_message (m ∷ ms) = (some (some m), ms)

abbrev pub await_message : List (Bool × Bytes) → Option (Bool × Bytes) × List (Bool × Bytes)
await_message [] = (none, [])
await_message (m ∷ ms) = (some m, ms)

abbrev pub acquire : ℕ → Bool × ℕ
acquire zero = (false, 0)
acquire (suc n) = (true, n)

abbrev pub local : Platform
local = record {
  helper = simple;
  Channel = List (Bool × Bytes);
  poll_recv = next_message;
  recv = await_message;
  File = Bytes;
  poll_read = λ f n. done (take n f) (drop n f);
  read = λ f n. (good (take n f), drop n f);
  seek = λ n f. (good tt, drop n f);
  open_file = λ name. none;
  Encoder = Bytes;
  encoder_new = λ method. [];
  write_all = λ b e. some (e ++ b);
  get_mut = λ e. e;
  clear = λ e. [];
  finish = λ e. some e;
  flush = λ e. some e;
  into_inner = λ e. e;
  Decoder = Bytes;
  decoder_new = λ method. [];
  decoder_write_all = λ b d. some (d ++ b);
  decoder_read = λ d. (some d, []);
  Semaphore = ℕ;
  semaphore_new = λ n. n;
  available_permits = λ s. s;
  add_permits = λ n s. s + n;
  poll_acquire = acquire;
  release = λ s. s + 1;
  sleep_pending = λ now deadline. false;
  mul_ratio = λ per count nums. per;
}

acquire_lem : (s : ℕ) → 0 < s → ((acquire s).0 ≡ true) × ((acquire s).1 + 1 ≡ s)
acquire_lem zero h = absurd (omega arith)
acquire_lem (suc n) h = (refl, omega arith)

local-SemaphoreLaws : SemaphoreLaws local
local-SemaphoreLaws = record {
  new_lem = λ n. refl;
  add_lem = λ n s. refl;
  acquire_lem = acquire_lem;
  release_lem = λ s. refl;
}

next_message-some :
    (c d : List (Bool × Bytes)) (m : Bool × Bytes) → next_message c ≡ (some (some m), d) → c ≡ m ∷ d
next_message-some [] d m h = cc
next_message-some (x ∷ c) d m h = cc

next_message-end : (c d : List (Bool × Bytes)) → next_message c ≡ (some none, d) → c ≡ d
next_message-end [] d h = cc
next_message-end (x ∷ c) d h = cc

next_message-wait : (c d : List (Bool × Bytes)) → next_message c ≡ (none, d) → c ≡ d
next_message-wait [] d h = cc
next_message-wait (x ∷ c) d h = cc

local-ChannelLaws : ChannelLaws local
local-ChannelLaws = record {
  contents = λ c. c;
  recv_some = next_message-some;
  recv_end = next_message-end;
  recv_wait = next_message-wait;
}

abbrev pub body : Body local
body = record (State.new local ((false, 4 ∷ []) ∷ (true, 5 ∷ []) ∷ []) (3 ∷ []) false) {
  is_chunked = true;
}

body-IsPlain : IsPlain local local-ChannelLaws local-SemaphoreLaws body
unfolding State.new State.empty Receiver.new_receiver
body-IsPlain = record {
  no_origin_method = refl;
  no_now_method = refl;
  chunked = refl;
  no_file = refl;
  free = omega arith;
}

abbrev pub clock : ℕ → Times
clock n = record { polled = 0; now = 0; now' = 0; called = 0 }

polls-Outputs_example :
    Outputs local local-ChannelLaws local-SemaphoreLaws body
      (polls local local-ChannelLaws local-SemaphoreLaws 5 clock 2 body).1
      (3 ∷ 3 ∷ 4 ∷ 5 ∷ 0 ∷ 0 ∷ 0 ∷ [])
unfolding State.new State.empty Receiver.new_receiver local-ChannelLaws polls
    dmeng.Body.Process.poll_encode_write dmeng.Body.Process.process_data decode_read_data
    dmeng.Body.Process.inner_poll_read inner_poll_sem_ready dmeng.Body.Process.read_loop
    Receiver.poll_recv dmeng.Body.Process.cache_buffer check_over_limit
    dmeng.Body.Codec.encode_write_data dmeng.Body.Process.read_data
polls-Outputs_example =
    polls-Outputs local local-ChannelLaws local-SemaphoreLaws 5 clock 2 body body-IsPlain refl refl
      (omega arith)

-- What the two polls of `body` send and leave, read again.
abbrev ReadAgain : Type 0
ReadAgain =
    let (wire, b') = polls local local-ChannelLaws local-SemaphoreLaws 5 clock 2 body in
    (given : Bytes) × (given ++ to_come local local-ChannelLaws local-SemaphoreLaws b'
      ≡ 3 ∷ 4 ∷ 5 ∷ [])
    × (SendStream.process_data simple (put_slice (wire ++ (8 ∷ [])) chunked)
        ≡ (ok tt, record chunked { is_end = true; real_read_buf = 9 ∷ given; read_buf = 8 ∷ [] }))

process_data-polls_example : ReadAgain
unfolding State.new State.empty State.copy_now Receiver.new_receiver local-ChannelLaws polls
    dmeng.Body.Process.poll_encode_write dmeng.Body.Process.process_data decode_read_data
    dmeng.Body.Process.inner_poll_read inner_poll_sem_ready dmeng.Body.Process.read_loop
    Receiver.poll_recv dmeng.Body.Process.cache_buffer check_over_limit
    dmeng.Body.Codec.encode_write_data dmeng.Body.Process.read_data
process_data-polls_example =
    process_data-polls local local-ChannelLaws local-SemaphoreLaws 5 clock simple-ChunkLaws 2 body
      chunked (8 ∷ []) body-IsPlain refl refl (omega arith) refl refl refl refl refl

abbrev file : Receiver.InnerReceiver local
file = Receiver.new_file local (1 ∷ 2 ∷ 3 ∷ 4 ∷ []) 4

set_start_end-cuts_example :
    let (o, r') = set_start_end local 1 3 file in
    (3 < 1 → (o ≡ panic) × (r' ≡ file))
    × (1 ≤ 3 → length (cuts local ((2 ∷ []) ∷ (3 ∷ 4 ∷ []) ∷ []) r').0 ≤ 2)
set_start_end-cuts_example = set_start_end-cuts local 1 3 ((2 ∷ []) ∷ (3 ∷ 4 ∷ []) ∷ []) file
