-- ===== src/Ws/Examples.antt =====
-- A WebSocket connection over a transport that keeps what is written, and a 0 where it was shut down.
use dmeng.Prelude.{ℕ, ◌≡◌, refl, true, Option, none, some, [], ◌∷◌, ◌++◌, length}
use dmeng.Prelude.Poll.{ok}
use dmeng.Error.{Bytes}
use dmeng.Transport.{done, good}
use dmeng.Ws.Platform.{Platform, incomplete}
use dmeng.Ws.State.{closing, closed}
use dmeng.Ws.Server.{ServerWsConnection, new, send_owned_message, receiver_close, poll_next}
use dmeng.Ws.Ending.{poll_next-ended}

abbrev platform : Platform
platform = record {
  Io = Bytes;
  poll_write = λ io b. done (length b) (io ++ b);
  poll_read = λ io n. done [] io;
  poll_shutdown = λ io. done tt (io ++ (0 ∷ []));
  DataFrame = Bytes;
  finished = λ f. true;
  read_dataframe = λ b masked limit. incomplete;
  Message = Bytes;
  from_dataframes = λ fs. good [];
  write_to = λ m mask. good m;
  CloseData = ℕ;
  normal = 1000;
  close_abnormal = [];
  close_invalid = [];
  next_item = λ decode b io. done none (b, io);
}

-- A connection with a message in its queue that was told to close for the reason 1001.
abbrev leaving : ServerWsConnection platform
unfolding new send_owned_message receiver_close
leaving =
    receiver_close platform (some 1001) (send_owned_message platform (7 ∷ 8 ∷ []) (new platform []))

abbrev no_message : Option Bytes
no_message = none

-- The message goes out after the transport was shut down.
closed_written : (poll_next platform 0 (λ n. 0) leaving).1.conn.codec.io ≡ 0 ∷ 7 ∷ 8 ∷ []
unfolding poll_next new send_owned_message receiver_close dmeng.Ws.State.set_closing
    dmeng.Ws.Server.poll_closing dmeng.Ws.Codec.shutdown dmeng.Ws.Codec.new
    dmeng.Ws.Control.poll_write dmeng.Ws.Control.send_owned_message dmeng.Ws.Control.new
    dmeng.Ws.Codec.send_msg dmeng.Ws.State.set_closed
closed_written = refl

poll_next-ended_example :
    (no_message ≡ none)
    × ((poll_next platform 0 (λ n. 0) leaving).1.state ≡ closed 1001)
    × (poll_next platform 5 (λ n. 0) (poll_next platform 0 (λ n. 0) leaving).1
        ≡ (ok none, (poll_next platform 0 (λ n. 0) leaving).1))
unfolding poll_next new send_owned_message receiver_close dmeng.Ws.State.set_closing
    dmeng.Ws.Server.poll_closing dmeng.Ws.Codec.shutdown dmeng.Ws.Codec.new
    dmeng.Ws.Control.poll_write dmeng.Ws.Control.send_owned_message dmeng.Ws.Control.new
    dmeng.Ws.Codec.send_msg dmeng.Ws.State.set_closed
poll_next-ended_example = poll_next-ended platform (λ n. 0) leaving 1001 no_message 0 5 refl refl
