-- ===== src/Body/Platform.antt =====
-- What src/body.rs takes from other libraries: a channel, a file and a semaphore of tokio, the
-- encoders and decoders of flate2 and brotli, and the two functions of time of src/layer/rate_limit.rs.
use Prim.Native.String.{String}
use dmeng.Prelude.{ℕ, ◌+◌, ◌<◌, ◌≡◌, Bool, true, Option, none, some, List, ◌∷◌}
use dmeng.Error.{Bytes}
use dmeng.Transport.{Polled, Result}
use dmeng.Webparse.{Helper}

pub record Platform : Type 1 where
  pub helper : Helper
  -- `mpsc::Receiver<(bool, Binary)>`: `none` of the poll is Pending; `recv` is the awaited answer.
  pub Channel : Type 0
  pub poll_recv : Channel → Option (Option (Bool × Bytes)) × Channel
  pub recv : Channel → Option (Bool × Bytes) × Channel
  -- A file; a read is given the room that it may fill.
  pub File : Type 0
  pub poll_read : File → ℕ → Polled File Bytes
  pub read : File → ℕ → Result Bytes × File
  pub seek : ℕ → File → Result (Unit {0}) × File
  pub open_file : String → Option File
  -- An encoder into a buffer, made for a compression method. `none` is an error that is unwrapped.
  pub Encoder : Type 0
  pub encoder_new : ℕ → Encoder
  pub write_all : Bytes → Encoder → Option Encoder
  pub get_mut : Encoder → Bytes
  pub clear : Encoder → Encoder
  pub finish : Encoder → Option Bytes
  pub flush : Encoder → Option Encoder
  pub into_inner : Encoder → Bytes
  -- A decoder over a buffer. `none` of a write is an I/O error, and a read has a buffer of 4096 bytes.
  pub Decoder : Type 0
  pub decoder_new : ℕ → Decoder
  pub decoder_write_all : Bytes → Decoder → Option Decoder
  pub decoder_read : Decoder → Option Bytes × Decoder
  -- `PollSemaphore`: `true` of the poll says that a permit was given; `release` is a permit's drop.
  pub Semaphore : Type 0
  pub semaphore_new : ℕ → Semaphore
  pub available_permits : Semaphore → ℕ
  pub add_permits : ℕ → Semaphore → Semaphore
  pub poll_acquire : Semaphore → Bool × Semaphore
  pub release : Semaphore → Semaphore
  pub sleep_pending : ℕ → ℕ → Bool
  pub mul_ratio : ℕ → ℕ → ℕ → ℕ

-- The documented behaviour of the semaphore.
pub record SemaphoreLaws (p : Platform) : Type 0 where
  pub new_lem : (n : ℕ) → p.available_permits (p.semaphore_new n) ≡ n
  pub add_lem :
      (n : ℕ) (s : p.Semaphore)
      → p.available_permits (p.add_permits n s) ≡ p.available_permits s + n
  pub acquire_lem :
      (s : p.Semaphore)
      → 0 < p.available_permits s
      → ((p.poll_acquire s).0 ≡ true)
        × (p.available_permits (p.poll_acquire s).1 + 1 ≡ p.available_permits s)
  pub release_lem :
      (s : p.Semaphore) → p.available_permits (p.release s) ≡ p.available_permits s + 1

-- A channel hands its messages out in their order. `contents` observes those not received yet.
pub record ChannelLaws (p : Platform) : Type 0 where
  pub contents : p.Channel → List (Bool × Bytes)
  pub recv_some :
      (c d : p.Channel) (m : Bool × Bytes)
      → p.poll_recv c ≡ (some (some m), d)
      → contents c ≡ m ∷ contents d
  pub recv_end : (c d : p.Channel) → p.poll_recv c ≡ (some none, d) → contents c ≡ contents d
  pub recv_wait : (c d : p.Channel) → p.poll_recv c ≡ (none, d) → contents c ≡ contents d
