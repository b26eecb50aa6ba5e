-- ===== src/Server/Examples.antt =====
-- A server over a connection that is the number of the requests to come, with a handler that counts.
use dmeng.Prelude.{
  ℕ, ◌+◌, ◌-◌, ◌≡◌, refl, Bool, true, Option, none, some, inl, List, [], ◌==◌, if◌then◌else◌, arith,
}
use dmeng.Prelude.Poll.{Outcome, ok, err}
use dmeng.Error.{ProtError, RequestRef, extension}
use dmeng.Server.Parts.{Parts}
use dmeng.Server.Setup
use dmeng.Server.Setup.{Server}
use dmeng.Server.Incoming.{incoming_loop, is_last, inner_incoming}
use dmeng.Server.Incoming.Served.{Ledger}
use dmeng.Server.Incoming.Unheard.{incoming_loop-unheard}

abbrev next_of : ℕ → Outcome ProtError (Option RequestRef) × ℕ
next_of n = if n == 0 then (ok none, 0) else (ok (some n), n - 1)

abbrev serve :
    Option ℕ
    → RequestRef
    → ℕ × ℕ
    → List ℕ
    → ℕ
    → Outcome ProtError (Option Bool) × (ℕ × ℕ) × List ℕ × ℕ
serve a r f ms h = (ok none, (f.0 + 1, f.1), ms, h)

abbrev counters : Parts
counters = record {
  Io = ℕ;
  Addr = ℕ;
  Response = ℕ;
  status = λ n. n;
  serialize = λ n. [];
  upgrade_protocol = λ r. none;
  upgrade_h2c = [];
  H1 = ℕ;
  h1_new = λ io. io;
  h1_new_by_cache = λ b io. io;
  h1_into_io = λ h. h;
  h1_set = λ v h. h;
  h1_incoming = next_of;
  h1_poll_write = λ h. h;
  h1_send_response = λ res h. (ok tt, h);
  H2 = ℕ;
  h2_into_io = λ h. h;
  h2_set = λ v h. h;
  h2_incoming = next_of;
  h2_poll_write = λ h. h;
  h2_send_response = λ res id h. (ok tt, h);
  into_h2 = λ b h. h;
  Ws = ℕ;
  CloseData = ℕ;
  h1_into_ws = λ b h. h;
  h2_into_ws = λ b h. h;
  ws_next = λ w. (ok none, w);
  ws_receiver_close = λ c w. w;
  ws_send_owned_message = λ m w. w;
  Http = ℕ × ℕ;
  Middle = ℕ;
  close_connect = λ f. (f.0, f.1 + 1);
  is_continue_next = λ f. true;
  process_error = λ e m. m;
  h1_handle_request = serve;
  h2_handle_request = serve;
  Callback = ℕ;
  Receiver = ℕ;
  channel = 0;
  on_request = λ r f. (ok 101, f);
  on_open = λ r res f. (ok none, f);
  on_message = λ m f. (ok tt, f);
  on_close = λ c f. f;
  on_ping = λ v f. (ok none, f);
  on_pong = λ v f. (ok tt, f);
  on_interval = λ o f. (ok tt, o, f);
  on_error = λ e f. f;
}

abbrev ledger : Ledger counters
ledger = record {
  served = λ f. f.0;
  closes = λ f. f.1;
  h1_served = λ a r f ms h. omega arith;
  h1_closes = λ a r f ms h. refl;
  h2_served = λ a r f ms h. omega arith;
  h2_closes = λ a r f ms h. refl;
  close_served = λ f. refl;
  close_closes = λ f. refl;
}

-- Five requests to come, and two at most.
abbrev server : Server counters
server =
    Setup.set_max_req counters 2
      (Setup.set_callback_http counters (0, 0) (Setup.new counters 5 none))

-- The run itself.
two_of_five : (incoming_loop counters 9 server).1.callback_http ≡ some (2, 1)
unfolding Setup.set_max_req Setup.set_callback_http Setup.new incoming_loop is_last Setup.flush
two_of_five = refl

-- Without a handler, and without a request to come.
incoming_loop-unheard_example :
    (incoming_loop counters 1 (Setup.new counters 0 none)).0
    ≡ err (extension "http callback is none")
unfolding Setup.new inner_incoming
incoming_loop-unheard_example =
    incoming_loop-unheard counters 0 (Setup.new counters 0 none) refl (inl refl)
