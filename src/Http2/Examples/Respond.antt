-- ===== src/Http2/Examples/Respond.antt =====
-- A response of src/http2, built of the client's frames with the body and the headers of the other runs.
use dmeng.Body.State
use dmeng.HeaderHelper.{process_headers, get_compress_method}
use dmeng.Prelude.{ℕ, ◌≡◌, suc, refl, none, some, [], false, true}
use dmeng.Transport.{good}
use dmeng.Body.Examples.{local, clock}
use dmeng.Http1.Examples.{named}
use dmeng.Http2.Frame.{HeaderBlock}
use dmeng.Http2.Examples.{lists, Headers}
use dmeng.Http2.Examples.Streams.{control}
use dmeng.Http2.InnerStream.Build.{header_frame}
use dmeng.Http2.InnerStream.Respond.{Responses, RecvResponse, build_response}
use dmeng.Http2.Control
use dmeng.Http2.Control.{find, contains}
use dmeng.Http2.InnerStream.{InnerStream}
use dmeng.Http2.InnerStream
use dmeng.Body.Process.{process_data}
use dmeng.Body.Codec.{encode_write_data}
use dmeng.Http2.Control.Receive.{recv_frame}
use dmeng.Http2.Control.Respond.{build_response_frame}
use dmeng.Http2.Control.Respond.Unfinished.{build_response_frame-unfinished}

abbrev responses : Responses lists
responses = record {
  ResponseBuilder = ℕ;
  response_builder = 0;
  into_response = λ h b. good (suc b);
  get_body_len = λ b. 0;
  into_body = λ b. good tt;
  words = named;
  headers_mut = λ b. some (0, false);
  set_headers = λ h b. b;
  bodies = local;
  receiver = [];
  fuel = 5;
  times = clock;
}

abbrev no_content : HeaderBlock Headers
no_content = record { fields = []; status = some 204; method = none }

abbrev after_headers : Control.Control lists
after_headers = (recv_frame lists (header_frame 1 true no_content) control).1

abbrev handed_out : RecvResponse lists responses
handed_out = record {
  builder = 1;
  body = record (State.empty local) { is_process_end = true };
  stream_id = some 1;
}

build_response_frame-unfinished_example :
    let k = (build_response_frame lists responses after_headers).1 in
    (handed_out.stream_id ≡ some 1)
    × ((s : InnerStream lists) × (find 1 k.recv_frames ≡ some s))
    × (contains 1 k.finish_streams ≡ false)
unfolding InnerStream.new State.set_origin_compress_method get_compress_method process_data
    encode_write_data
build_response_frame-unfinished_example =
    build_response_frame-unfinished lists responses 1 no_content control handed_out refl
      (unfold Control.new in refl) (unfold Control.new in refl) (unfold Control.new in refl)
      (unfold Control.new recv_frame build_response_frame build_response State.empty
          process_headers in
        refl)
