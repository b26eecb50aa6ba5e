-- ===== src/Ws/Platform.antt =====
-- What src/ws takes from other libraries: the transport, webparse's frames and messages, and the framed
-- reader of tokio-util.
use dmeng.Prelude.{ℕ, Bool, Option, List}
use dmeng.Error.{Bytes}
use dmeng.Transport.{Polled, Result}

-- What a decoder answers of the bytes that are there: nothing yet, or an item and its size, or an error.
pub data Decoded (F : Type 0) : Type 0 where
  incomplete : Decoded F
  item : F → ℕ → Decoded F
  failed : ℕ → Decoded F

pub record Platform : Type 1 where
  pub Io : Type 0
  pub poll_write : Io → Bytes → Polled Io ℕ
  pub poll_read : Io → ℕ → Polled Io Bytes
  pub poll_shutdown : Io → Polled Io (Unit {0})
  pub DataFrame : Type 0
  pub finished : DataFrame → Bool
  -- `read_dataframe_with_limit`: whether the frame is masked, and the limit of its size.
  pub read_dataframe : Bytes → Bool → ℕ → Decoded DataFrame
  pub Message : Type 0
  pub from_dataframes : List DataFrame → Result Message
  -- A message written, with a mask or without.
  pub write_to : Message → Option ℕ → Result Bytes
  -- `Close(Some(CloseData::new(code, "network")))` for the two codes, and `CloseData::normal()`.
  pub CloseData : Type 0
  pub normal : CloseData
  pub close_abnormal : Message
  pub close_invalid : Message
  -- tokio-util's `FramedRead` with a decoder, over a buffer and the transport.
  pub next_item : (Bytes → Decoded DataFrame) → Bytes → Io → Polled (Bytes × Io) (Option DataFrame)
