-- ===== src/Http2/Examples/Codec.antt =====
-- Runs of the codec and of the queue of src/http2.
use dmeng.Prelude.{ℕ, ◌≡◌, ◌<◌, true, false, none, [], ◌∷◌, length}
use dmeng.Prelude.Poll.{ok}
use dmeng.Http2.Frame.{Frame, PriorityFrame, payload}
use dmeng.Http2.Codec
use dmeng.Http2.Codec.{flush, poll_ready, send_frame, shutdown}
use dmeng.Http2.Codec.Stream.{stream, flush-poll_ready-stream}
use dmeng.Http2.PriorityQueue
use dmeng.Http2.PriorityQueue.{PriorityQueue, weight, priority_recv}
use dmeng.Http2.PriorityQueue.Drain.{Drains, poll_handle-Drains}
use dmeng.Http2.Examples.{Wire, Headers, lists, lists-Lawful, lists-QueueLaws}

-- A write takes two bytes at most.
abbrev wire : Wire
wire = record { out = 7 ∷ []; inc = []; limit = 1 }

abbrev codec : Codec.Codec lists
codec = record {
  io = wire;
  read_buf = [];
  decoder = tt;
  max_header_list_size = 4096;
  binary = 1 ∷ 2 ∷ 3 ∷ [];
  cursor = 0;
  max_frame_size = 3;
  header_index = tt;
  header_table_size = 4096;
  max_send_frame_size = 16384;
}

abbrev data_of : ℕ → Frame Headers
data_of id = record {
  stream_id = id;
  is_end_headers = false;
  is_end_stream = true;
  kind = payload (9 ∷ []);
}

flush-poll_ready-stream_example :
    (stream lists lists-Lawful (flush lists codec).1 ≡ 7 ∷ 1 ∷ 2 ∷ 3 ∷ [])
    × (stream lists lists-Lawful (poll_ready lists codec).1 ≡ 7 ∷ 1 ∷ 2 ∷ 3 ∷ [])
    × ((poll_ready lists codec).0 ≡ ok tt
        → length (poll_ready lists codec).1.binary < (poll_ready lists codec).1.max_frame_size)
unfolding lists-Lawful
flush-poll_ready-stream_example = flush-poll_ready-stream lists lists-Lawful codec

-- A window of no size holds the data frames back.
abbrev queue : PriorityQueue lists
queue = record {
  send_queue =
      record { frame = record (data_of 0) { kind = dmeng.Http2.Frame.window_update 1 }; weight = 0 }
      ∷ record { frame = data_of 1; weight = 0 }
      ∷ [];
  hash_weight = λ k. none;
  hash_depend = λ k. none;
  flow_control = record { window_size = 0; available = 0 };
}

poll_handle-Drains_example :
    let r = PriorityQueue.poll_handle lists queue codec in
    Drains lists lists-QueueLaws queue r.0 r.1
poll_handle-Drains_example = poll_handle-Drains lists lists-QueueLaws queue codec
