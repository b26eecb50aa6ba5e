-- ===== src/Lib.antt =====
-- A model of dmeng, an HTTP client and server library, and what it keeps to.
--
-- A connection of HTTP/2 is a control block over a codec. Each poll of the control block first finishes
-- the handshake, then exchanges SETTINGS, writes what is queued (GOAWAY, pong, then the frames in the
-- order of their streams' weights), moves the data of the streams on to the bodies of their requests,
-- and takes the next frame from the codec; when no frame comes, the next ready stream is handed out as a
-- request. Two layers beside it bound the time and the rate of a body.
--
-- Http2/Frame: the frames of webparse, as far as src/http2 reads them. Http2/Platform: what src/http2
--   takes from other libraries, as a record of functions and the laws that are assumed of them. The body
--   of src/body.rs stands there too, behind the two functions that are called of it.
-- Http2/Codec: src/http2/codec, one record for the nested codecs. Codec/Stream: the bytes it moves.
-- Http2/State/Handshake, Settings, GoAway, PingPong: the state machines of src/http2/state, one function
--   for each of theirs, with the codec passed on. `poll_handle` is the name of each poll, as in the code.
-- Http2/PriorityQueue: src/http2/priority_queue.rs and flow_control.rs.
-- Http2/Send: src/http2/send_request.rs and send_response.rs. Send/Run polls a response repeatedly.
-- Http2/InnerStream: src/http2/inner_stream.rs, the frames of one stream.
-- Http2/Control: src/http2/control.rs. Control/Receive: `recv_frame`, `poll_recv_frame` and
--   `build_request_frame`; below it, Ready, Receives, Polls, Finishes, Keys and Steps follow the streams
--   that are ready, and Restart those that are made ready twice. Control/Poll: `poll_write` and
--   `poll_request`.
-- Http2/Builder, Http2/Server and Http2/Client: src/http2/builder.rs and the two connections, a state
--   machine of open, closing and closed around the control block.
-- Http2/InnerStream/Respond and Http2/Control/Respond: the client's side of inner_stream.rs and
--   control.rs, which makes responses. Respond/Open and Respond/Unfinished follow the end of one.
--
-- A connection of HTTP/1 keeps a read buffer and a write buffer and the message that is under way each
-- way. What comes in is cut by a SendStream, by its length or by its chunks, and goes to the receiver of a
-- Body over a channel; what goes out is the encoded head and then what the Body hands over, plain or
-- compressed, framed in chunks or not. HeaderHelper agrees the headers of a message with its Body.
--
-- SendStream: src/send_stream.rs. SendStream/Fixed and SendStream/Chunked follow its two ways of cutting.
-- Webparse: the chunk encoder and the chunk parser of webparse, as a record and its laws.
-- Body/Receiver, State, Codec, Process: src/body.rs, its receiver, the fields and setters, the encoders
--   and decoders, and the polls. Body/Platform: what it takes from other libraries. Body/Plain and
--   Body/Output follow a chunked body without compression, Body/RoundTrip reads it back by a SendStream,
--   Body/Range and Body/Limits are about files and the permits of reading.
-- HeaderHelper: src/header_helper.rs.
-- Http1/IoBuffer, Write, Read, Request, Response: src/http1/io.rs. Http1/Server and Http1/Client: the two
--   connections around it. Http1/Closing and Http1/Unbounded follow keep-alive, the end of the input and
--   the length of a body.
--
-- A connection of WebSocket writes the answer to the upgrade, and then messages and frames.
--
-- Ws/Codec, Ws/Handshake, Ws/State, Ws/Control: src/ws/codec, src/ws/state and src/ws/control.rs.
-- Ws/Accept: src/ws/handshake.rs. Ws/Server and Ws/Client: the two connections. Ws/Ending follows a
--   connection that closes. Ws/Message: src/ws/option.rs.
--
-- Around the connections stand the server, which takes requests from a connection and hands them to its
-- handler until it stops or moves to WebSocket, the proxies of a client, and two plugins that carry a
-- stream over a WebSocket connection.
--
-- Server/Setup, Builder, Incoming, Messages: src/server.rs. Server/Parts: what it calls of its connections
--   and handlers, awaited, as a record of functions. Below Incoming, Served, Rounds, Sorting and Service
--   follow the counts of its loop, and Unheard a server without a handler.
-- HttpHelper: src/http_helper.rs and the trait of src/middle/mod.rs; HttpHelper/Calls and Order follow the
--   calls.
-- Proxy/Tunnel, Proxy/Socks5, Proxy/Select: src/proxy.rs, the tunnel through an HTTP proxy, the SOCKS5
--   handshake, and the proxies that are given or named by the environment; the choice of one is that of
--   `connect_with_domain` in src/client.rs, whose two loops are alike. Proxy/Platform: what it takes from
--   other libraries. Tunnel/Answer, Socks5/Session and Select/Order follow them.
-- Plugins/Copy: the copying loop that both files of src/plugins have; an event is the branch of its
--   `select!` that runs. Copy/Runs follows its runs. Plugins/WsToStream and Plugins/StreamToWs: the rest.
--
-- Transport: the outcomes of a transport's operations, which all three share.
-- Layer/RateLimit and Layer/Timeout: src/layer. Error: src/error.rs.
-- Prelude/Poll: `Poll<ProtResult<A>>` as a value, with `panic` and `spin` for what Rust has no value for.
--   Prelude/Tests and Prelude/Lists: Boolean tests, and lists measured by native numbers.
-- The modules named Examples run the definitions on a transport, a queue and a channel over lists.
--
-- Bytes are numbers, a transport is a value that its operations return changed, and an operation on
-- `&mut self` returns the record afterwards. Lengths do not wrap except where the code's arithmetic does
-- at the widths that it uses: the received length is taken modulo 2 ^ 64, the window and the weight at 32
-- and 8 bits. A loop takes fuel and answers `spin` where that runs out: the write of the handshake has a
-- round for each byte, its outer loop four, the sending loop one more than there are frames, the loop of
-- a stream one more than there are frames, and the loop of `poll_request` the fuel that it is given, one
-- for each frame that it may receive in one poll.
--
-- A SendStream has a round for each byte of its buffer and one more. The loops of src/body.rs and of
-- src/http1/io.rs over a channel or a transport take the fuel that they are given, a round for each
-- message or read; the loop of a WebSocket's poll has two rounds, since a connection that closes is closed
-- in the second. The wait for a tunnel's answer has 8193 rounds, one more than its buffer has bytes, since
-- each round reads a byte at least. The loop of a server takes the fuel that it is given, a round for each
-- request or move to HTTP/2, and those over a channel the list of the events to come.
--
-- Not modelled: the asynchronous `incoming` and `handle_request` of the connections and their moves from
-- one protocol to another, which await handlers and channels; `convert_value` of src/header_helper.rs and
-- the middleware of src/middle/base.rs, which calls it; `copy_bidirectional` of src/plugins, which spawns
-- a client or a server; the wait for an interval of src/ws/option.rs and the trait of src/ws/ws_trait.rs;
-- and src/client.rs but for its choice of a proxy, and src/stream.rs, which are asynchronous glue
-- over sockets.
pub mod Prelude
pub mod Error
pub mod SendStream
pub mod Body
pub mod HeaderHelper
pub mod HttpHelper
pub mod Http1
pub mod Ws
pub mod Plugins
pub mod Proxy
pub mod Transport
pub mod Webparse
pub mod Layer
pub mod Server
pub mod Http2
