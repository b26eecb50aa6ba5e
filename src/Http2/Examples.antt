-- ===== src/Http2/Examples.antt =====
-- A transport, a queue and a channel over lists, and frames of the simplest kind: on them the other
-- libraries' documented behaviour holds, and src/http2 runs.
mod Codec
mod State
mod Streams
mod Send
mod Respond
use Prim.Native.String.{String}
use text.Mathlib.Text.{◌==◌ as str_eq}
use dmeng.Prelude.{
  ℕ, zero, suc, ◌+◌, ◌≤◌, ◌<◌, ◌≡◌, refl, ap, ◌∙◌, sym, Bool, true, false, Option, none, some, List,
  [], ◌∷◌, ◌++◌, length, take, drop, take-append-drop, min, arith, ◌↔◌,
}
use dmeng.Error.{Bytes}
use dmeng.Http2.Frame.{Frame, HeaderBlock, PriorityFrame, Settings, control_frame, payload}
use dmeng.Http2.Platform.{Platform, Lawful, Progresses, Polled, wait, done, Result, good}
use dmeng.Http2.PriorityQueue.Drain.{QueueLaws}
use dmeng.Http2.InnerStream.Deliver.{ChannelLaws}

-- What was written, what can be read, and one less than a write takes at most.
record Wire : Type 0 where
  out : Bytes
  inc : Bytes
  limit : ℕ

abbrev wire_write : Wire → Bytes → Polled Wire ℕ
wire_write s b =
    let n = min (suc s.limit) (length b) in done n (record s { out = s.out ++ take n b })

abbrev read_some : Wire → ℕ → Bytes → Polled Wire Bytes
read_some s n [] = wait s
read_some s n (b ∷ bs) = done (take n (b ∷ bs)) (record s { inc = drop n (b ∷ bs) })

abbrev wire_read : Wire → ℕ → Polled Wire Bytes
wire_read s n = read_some s n s.inc

abbrev Headers : Type 0
Headers = List (String × String)

abbrev Queue : Type 0
Queue = List (PriorityFrame Headers)

abbrev no_settings : Settings
no_settings = record {
  is_ack = false;
  header_table_size = none;
  enable_push = none;
  max_concurrent_streams = none;
  initial_window_size = none;
  max_frame_size = none;
  max_header_list_size = none;
  enable_connect_protocol = none;
}

abbrev is_nil {ℓ} : {A : Type ℓ} → List A → Bool
is_nil [] = true
is_nil (x ∷ xs) = false

abbrev head {ℓ} : {A : Type ℓ} → List A → Option A
head [] = none
head (x ∷ xs) = some x

abbrev pop {ℓ} : {A : Type ℓ} → List A → Option (A × List A)
pop [] = none
pop (x ∷ xs) = some (x, xs)

abbrev split_frame : Bytes → Wire → Polled (Bytes × Wire) (Option Bytes)
split_frame [] s = wait ([], s)
split_frame (b ∷ bs) s = done (some (b ∷ [])) (bs, s)

-- A request under construction is the number of its header blocks, a body the bytes left of it.
abbrev lists : Platform
lists = record {
  Io = Wire;
  poll_write = wire_write;
  poll_read = wire_read;
  poll_shutdown = λ s. done tt s;
  HeaderMap = Headers;
  HeaderIndex = Unit;
  index_new = tt;
  set_max_table_size = λ n i. i;
  encode = λ i n f. (good (f.stream_id ∷ []), i);
  Decoder = Unit;
  decoder_new = tt;
  FrameHeader = ℕ;
  parse_header = λ b. good (length b, b);
  parse_frame = λ n b d m. (good (control_frame (payload b)), d);
  magic = 80 ∷ 82 ∷ 73 ∷ [];
  ret_pong = λ v. record v { ack = true };
  settings_ack = record no_settings { is_ack = true };
  RequestBuilder = ℕ;
  request_builder = 0;
  into_request = λ h b. good (suc b);
  get_body_len = λ b. 0;
  into_body = λ b. good tt;
  header_new = [];
  header_insert = λ name value m. (name, value) ∷ m;
  header_iter = λ m. m;
  is_content_length = λ name. str_eq name "content-length";
  parse_isize = λ value. none;
  status_text = λ n. "200";
  is_nobody = λ m. str_eq m "GET";
  next_id = λ n. (n, n + 2);
  Body = Bytes;
  body_is_end = λ b. is_nil b;
  poll_encode_write = λ b. (b, []);
  next_frame = split_frame;
  SendQueue = Queue;
  queue_new = [];
  queue_len = λ q. length q;
  queue_is_empty = λ q. is_nil q;
  queue_insert = λ x q. q ++ x ∷ [];
  queue_first = λ q. head q;
  queue_pop_first = λ q. pop q;
  Channel = List (Bool × Bytes);
  channel_new = [];
  poll_reserve = λ ch. (true, ch);
  send_item = λ x ch. ch ++ x ∷ [];
}

take-take : (n : ℕ) (xs : Bytes) → take n (take n xs) ≡ take n xs
take-take zero xs = refl
take-take (suc n) [] = refl
take-take (suc n) (x ∷ xs) = ap (λ r. x ∷ r) (take-take n xs)

done-injective : {S A : Type 0} (a b : A) (s t : S) → done a s ≡ done b t → (b ≡ a) × (t ≡ s)
done-injective a b s t h = (cc, cc)

wait-injective : {S A : Type 0} (s t : S) → ◌≡◌ {A = Polled S A} (wait s) (wait t) → t ≡ s
wait-injective s t h = cc

read_some-done :
    (s t : Wire) (n : ℕ) (xs b : Bytes)
    → read_some s n xs ≡ done b t
    → (xs ≡ take n b ++ t.inc) × (t.out ≡ s.out)
read_some-done s t n [] b h = cc
read_some-done s t n (x ∷ xs) b h =
    let read = take n (x ∷ xs) in
    let (got, left) = done-injective read b (record s { inc = drop n (x ∷ xs) }) t h in
    rw (got, left, take-take n (x ∷ xs)) (sym (take-append-drop n (x ∷ xs)), refl)

read_some-wait :
    (s t : Wire) (n : ℕ) (xs : Bytes)
    → read_some s n xs ≡ wait t
    → (t.inc ≡ s.inc) × (t.out ≡ s.out)
read_some-wait s t n [] h =
    let same : t ≡ s = wait-injective {A = Bytes} s t h in rw same (refl, refl)
read_some-wait s t n (x ∷ xs) h = cc

wire_write-done :
    (s t : Wire) (b : Bytes) (n : ℕ)
    → wire_write s b ≡ done n t
    → (n ≡ min (suc s.limit) (length b))
      × (t ≡ record s { out = s.out ++ take (min (suc s.limit) (length b)) b })
wire_write-done s t b n h = done-injective (min (suc s.limit) (length b)) n _ t h

lists-Lawful : Lawful lists
lists-Lawful = record {
  sent = λ s. s.out;
  incoming = λ s. s.inc;
  write_wait = λ s t b h. cc;
  write_fail = λ s t b e h. cc;
  write_done = λ s t b n h.
      let (count, after) = wire_write-done s t b n h in rw (count, after) (omega arith, refl);
  write_keeps_incoming_wait = λ s t b h. cc;
  write_keeps_incoming = λ s t b n h. rw ((wire_write-done s t b n h).1) refl;
  read_wait = λ s t n h. read_some-wait s t n s.inc h;
  read_done = λ s t n b h. read_some-done s t n s.inc b h;
}

lists-Progresses : Progresses lists
lists-Progresses s t b n h some_left =
    let (count, after) = wire_write-done s t b n h in omega (arith, count)

is_nil_lem : (q : Queue) → (is_nil q ≡ true) ↔ (q ≡ [])
is_nil_lem [] = ((λ h. refl), λ h. refl)
is_nil_lem (x ∷ r) = ((λ h. cc), λ h. cc)

lists-QueueLaws : QueueLaws lists
lists-QueueLaws = record {
  view = λ q. q;
  len_lem = λ q. refl;
  is_empty_lem = is_nil_lem;
  first_lem = λ s x r h. rw h refl;
  pop_lem = λ s x r h. (r, rw h refl, refl);
}

lists-ChannelLaws : ChannelLaws lists
lists-ChannelLaws = record {
  items = λ ch. ch;
  items-reserve = λ ch. refl;
  items-send = λ x ch. refl;
}
