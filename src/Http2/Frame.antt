-- ===== src/Http2/Frame.antt =====
-- The HTTP/2 values that src/http2 takes from webparse, as far as it reads them: a frame with the
-- answers of its accessors. `H` is the type of header maps.
use Prim.Native.String.{String}
use dmeng.Prelude.{ℕ, ◌≡◌, Bool, true, false, Option, List, [], ◌∷◌}
use dmeng.Error.{Bytes, Reason}

pub record Settings : Type 0 where
  pub is_ack : Bool
  pub header_table_size : Option ℕ
  pub enable_push : Option ℕ
  pub max_concurrent_streams : Option ℕ
  pub initial_window_size : Option ℕ
  pub max_frame_size : Option ℕ
  pub max_header_list_size : Option ℕ
  pub enable_connect_protocol : Option ℕ

pub record GoAway : Type 0 where
  pub last_stream_id : ℕ
  pub reason : Reason
  pub debug_data : Bytes

pub record Ping : Type 0 where
  pub ack : Bool
  pub payload : Bytes

-- The triple that `Priority` turns into.
pub record Priority : Type 0 where
  pub id : ℕ
  pub depend_id : ℕ
  pub weight : ℕ

pub record HeaderBlock (H : Type 0) : Type 0 where
  pub fields : H
  pub status : Option ℕ
  pub method : Option String

pub data Kind (H : Type 0) : Type 0 where
  payload : Bytes → Kind H
  headers : HeaderBlock H → Kind H
  priority : Priority → Kind H
  push_promise : ℕ → HeaderBlock H → Kind H
  settings : Settings → Kind H
  ping : Ping → Kind H
  go_away : GoAway → Kind H
  window_update : ℕ → Kind H
  reset : Reason → Kind H

-- `is_end_headers` and `is_end_stream` are fields of their own, so a theorem holds whatever webparse
-- answers of a kind of frame.
pub record Frame (H : Type 0) : Type 0 where
  pub stream_id : ℕ
  pub is_end_headers : Bool
  pub is_end_stream : Bool
  pub kind : Kind H

abbrev pub is_data : {H : Type 0} → Frame H → Bool
is_data f = elim f.kind [ payload b ↦ true | _ ↦ false ]

-- A frame of the connection's own stream.
abbrev pub control_frame : {H : Type 0} → Kind H → Frame H
control_frame k = record { stream_id = 0; is_end_headers = false; is_end_stream = false; kind = k }

pub record PriorityFrame (H : Type 0) : Type 0 where
  pub frame : Frame H
  pub weight : ℕ

-- The flag and the bytes of a data frame.
abbrev pub item : {H : Type 0} → Frame H → Bool × Bytes
item f = (f.is_end_stream, elim f.kind [ payload b ↦ b | _ ↦ [] ])

abbrev pub itemised : {H : Type 0} → List (Frame H) → List (Bool × Bytes)
itemised [] = []
itemised (f ∷ fs) = item f ∷ itemised fs

abbrev pub AllData : {H : Type 0} → List (Frame H) → Type 0
AllData [] = Unit
AllData (f ∷ fs) = (is_data f ≡ true) × AllData fs
