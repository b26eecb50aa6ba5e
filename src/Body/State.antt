-- ===== src/Body/State.antt =====
-- `Body` of src/body.rs: its fields, its constructors and setters. A compression method is its number.
use Prim.Native.String.{String}
use dmeng.Prelude.{
  ℕ, Bool, true, false, not, ◌&&◌, Option, none, some, [], ◌∷◌, length, leb, ◌==◌, if◌then◌else◌,
}
use dmeng.Prelude.Poll.{Outcome}
use dmeng.Error.{Bytes, ProtError}
use dmeng.Layer.RateLimit.{RateLimitLayer}
use dmeng.Body.Platform.{Platform}
use dmeng.Body.Receiver
use dmeng.Body.Receiver.{InnerReceiver}

abbrev pub compress_method_none : ℕ
compress_method_none = 0

abbrev pub compress_method_gzip : ℕ
compress_method_gzip = 1

abbrev pub compress_method_deflate : ℕ
compress_method_deflate = 2

abbrev pub compress_method_brotli : ℕ
compress_method_brotli = 3

pub record InnerCompress (p : Platform) : Type 0 where
  pub write_gz : Option p.Encoder
  pub write_br : Option p.Encoder
  pub write_de : Option p.Encoder

pub record InnerDecompress (p : Platform) : Type 0 where
  pub reader_gz : Option p.Decoder
  pub reader_br : Option p.Decoder
  pub reader_de : Option p.Decoder

-- `permit` says whether the body holds a permit.
pub record Body (p : Platform) : Type 0 where
  pub receiver : InnerReceiver p
  pub sem : p.Semaphore
  pub permit : Bool
  pub origin_buf : Option Bytes
  pub read_buf : Option Bytes
  pub cache_body_data : Bytes
  pub origin_compress_method : ℕ
  pub now_compress_method : ℕ
  pub compress : InnerCompress p
  pub decompress : InnerDecompress p
  pub is_chunked : Bool
  pub is_end : Bool
  pub is_process_end : Bool
  pub max_read_buf : ℕ
  pub rate_limit : Option RateLimitLayer

module _ (p : Platform) where
  unfoldable pub empty : Body p
  empty = record {
    receiver = Receiver.new p;
    sem = p.semaphore_new 10;
    permit = false;
    origin_buf = none;
    read_buf = none;
    cache_body_data = [];
    origin_compress_method = compress_method_none;
    now_compress_method = compress_method_none;
    compress = record { write_gz = none; write_br = none; write_de = none };
    decompress = record { reader_gz = none; reader_br = none; reader_de = none };
    is_chunked = false;
    is_end = true;
    is_process_end = false;
    max_read_buf = 10_485_760;
    rate_limit = none;
  }

  -- `only`, `new_text` and the conversions make the same value of their bytes.
  unfoldable pub new_binary : Bytes → Body p
  new_binary binary = record empty { origin_buf = some binary }

  unfoldable pub new : p.Channel → Bytes → Bool → Body p
  new receiver binary is_end = record empty {
    receiver = Receiver.new_receiver p receiver;
    origin_buf = some binary;
    is_end = is_end;
  }

  unfoldable pub new_file : p.File → ℕ → Body p
  new_file file data_size = record empty {
    receiver = Receiver.new_file p file data_size;
    is_end = false;
  }

  -- The bytes of "not found file".
  abbrev not_found_file : Bytes
  not_found_file =
      110 ∷ 111 ∷ 116 ∷ 32 ∷ 102 ∷ 111 ∷ 117 ∷ 110 ∷ 100 ∷ 32 ∷ 102 ∷ 105 ∷ 108 ∷ 101 ∷ []

  unfoldable pub set_file : String → ℕ → Body p → Body p
  set_file file data_size b = elim (p.open_file file) [
    | some f ↦ record b {
      origin_buf = none;
      receiver = Receiver.new_file p f data_size;
      is_end = false;
    }
    | none ↦ record b { origin_buf = some not_found_file }
  ]

  -- `set_text` is the same with a text's bytes.
  unfoldable pub set_data : Bytes → Body p → Body p
  set_data bytes b = record b { origin_buf = some bytes }

  unfoldable pub set_rate_limit : RateLimitLayer → Body p → Body p
  set_rate_limit rate b = record b { rate_limit = some rate }

  unfoldable pub set_max_read_buf : ℕ → Body p → Body p
  set_max_read_buf max_read_buf b = record b { max_read_buf = max_read_buf }

  unfoldable pub set_start_end : ℕ → ℕ → Body p → Outcome ProtError (Unit {0}) × Body p
  set_start_end start_pos end_pos b =
      let r = Receiver.set_start_end p start_pos end_pos b.receiver in
      (r.0, record b { receiver = r.1 })

  unfoldable pub get_origin_compress : Body p → ℕ
  get_origin_compress b = b.origin_compress_method

  unfoldable pub get_now_compress : Body p → ℕ
  get_now_compress b =
      if b.origin_compress_method == b.now_compress_method then 0 else b.now_compress_method

  -- The permit that is taken out of the field is dropped.
  unfoldable pub check_over_limit : Body p → Body p
  check_over_limit b = elim b.read_buf [
    | none ↦ b
    | some bin ↦
        if leb b.max_read_buf (length bin) && b.permit
        then record b { permit = false; sem = p.release b.sem }
        else b
  ]

  unfoldable pub notify_some_read : Body p → Body p
  notify_some_read b =
      if not b.permit && (p.available_permits b.sem == 0)
      then record b { sem = p.add_permits 1 b.sem }
      else b

  -- The bytes read so far, taken out.
  unfoldable pub binary : Body p → Bytes × Body p
  unfolding notify_some_read
  binary b = elim b.read_buf [
    | none ↦ ([], b)
    | some bin ↦ (bin, notify_some_read (record b { read_buf = none }))
  ]

  -- `Serialize` for a body: the count, what is appended, and the body.
  unfoldable pub serialize : Body p → ℕ × Bytes × Body p
  unfolding notify_some_read
  serialize b = elim b.read_buf [
    | none ↦ (0, [], b)
    | some bin ↦ (length bin, bin, notify_some_read (record b { read_buf = none }))
  ]

  -- `set_compress_gzip` and `set_compress_origin_gzip`, and the two after it, have the same body.
  unfoldable pub set_compress_gzip : Body p → Body p
  set_compress_gzip b = record b {
    origin_compress_method = compress_method_gzip;
    now_compress_method = compress_method_none;
  }

  unfoldable pub set_compress_deflate : Body p → Body p
  set_compress_deflate b = record b {
    origin_compress_method = compress_method_deflate;
    now_compress_method = compress_method_none;
  }

  unfoldable pub set_compress_brotli : Body p → Body p
  set_compress_brotli b = record b {
    origin_compress_method = compress_method_brotli;
    now_compress_method = compress_method_none;
  }

  unfoldable pub set_origin_compress_method : ℕ → Body p → ℕ × Body p
  set_origin_compress_method method b = (method, record b { origin_compress_method = method })

  unfoldable pub add_compress_method : ℕ → Body p → ℕ × Body p
  unfolding get_now_compress
  add_compress_method method b =
      let b' = record b { now_compress_method = method } in (get_now_compress b', b')

  unfoldable pub set_chunked : Bool → Body p → Body p
  set_chunked chunked b = record b { is_chunked = chunked }

  unfoldable pub set_end : Bool → Body p → Body p
  set_end end b = record b { is_end = end }

  unfoldable pub origin_len : Body p → ℕ
  origin_len b = elim b.read_buf [ none ↦ 0 | some bin ↦ length bin ]

  unfoldable pub copy_now : Body p → Bytes
  copy_now b = elim b.read_buf [ none ↦ [] | some bin ↦ bin ]

  unfoldable pub body_len : Body p → ℕ
  body_len b = length b.cache_body_data
