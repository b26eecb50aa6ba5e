-- ===== src/Http2/Examples/Send.antt =====
-- Runs of the outgoing messages of src/http2.
use dmeng.Prelude.{◌≡◌, refl, false, some, List, [], ◌∷◌}
use dmeng.Http2.Frame.{Frame}
use dmeng.Http2.Send.{SendResponse}
use dmeng.Http2.Send.Run.{response_run, sent_bytes, Announces, Follow, response_run-once}
use dmeng.Http2.Examples.{Headers, lists}

-- A pushed response with a body of two bytes.
abbrev fresh : SendResponse lists
fresh = record {
  stream_id = 3;
  push_id = some 2;
  response = record { status = 200; header_map = []; body = 8 ∷ 9 ∷ [] };
  encode_header = false;
  encode_body = false;
  is_end_stream = false;
  method = "GET";
}

response_run-once_example :
    (f : Frame Headers) × (fs : List (Frame Headers)) × (response_run lists 3 fresh ≡ f ∷ fs)
    × Announces lists fresh f
    × Follow 2 fs
    × (sent_bytes fs ≡ 8 ∷ 9 ∷ [])
response_run-once_example = response_run-once lists 2 fresh refl
