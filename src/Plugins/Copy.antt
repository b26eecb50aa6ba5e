-- ===== src/Plugins/Copy.antt =====
-- `bind` of src/plugins/ws_to_stream.rs: the loop that copies between a stream and the two channels of a
-- WebSocket connection. `select!` runs one branch that is ready: an event says which one, and with what.
pub mod Runs
use dmeng.Prelude.{
  ℕ, Bool, true, false, not, List, [], ◌∷◌, ◌++◌, drop, take, length, Option, none, some, ◌==◌,
  if◌then◌else◌,
}
use dmeng.Prelude.Poll.{Outcome, ok, err, panic, ◌>>>◌}
use dmeng.Error.{Bytes, ProtError, io_error}
use dmeng.Http2.Codec.{is_empty}

-- `io::ErrorKind::InvalidInput`, by its number.
abbrev pub invalid_input : ℕ
invalid_input = 20

-- What the environment does next: an I/O error is its code, and `none` says that the channel is closed.
pub data Event : Type 0 where
  read_some : Bytes → Event
  read_fails : ℕ → Event
  write_some : ℕ → Event
  write_fails : ℕ → Event
  receives : Option Bytes → Event
  reserves : Bool → Event

-- The two buffers, with what the stream has taken and what the WebSocket's channel has been sent.
pub record Copy : Type 0 where
  pub read : Bytes
  pub write : Bytes
  pub written : Bytes
  pub sent : List Bytes

unfoldable pub new : Copy
new = record { read = []; write = []; written = []; sent = [] }

-- The guards of the branches.
unfoldable pub is_enabled : Event → Copy → Bool
is_enabled (read_some b) s = true
is_enabled (read_fails e) s = true
is_enabled (write_some n) s = not (is_empty s.write)
is_enabled (write_fails e) s = not (is_empty s.write)
is_enabled (receives m) s = true
is_enabled (reserves open_) s = not (is_empty s.read)

-- One round: `ok true` goes on, `ok false` is `Ok(())`. A failed write is a `todo!()`.
unfoldable pub select : Event → Copy → Outcome ProtError Bool × Copy
select (read_some b) s =
    if is_empty b then (ok false, s) else (ok true, record s { read = s.read ++ b })
select (read_fails e) s = (err (io_error e), s)
select (write_some n) s =
    (ok true, record s { write = drop n s.write; written = s.written ++ take n s.write })
select (write_fails e) s = (panic, s)
select (receives none) s = (err (io_error invalid_input), s)
select (receives (some v)) s = (ok true, record s { write = s.write ++ v })
select (reserves false) s = (err (io_error invalid_input), s)
select (reserves true) s = (ok true, record s { read = []; sent = s.sent ++ s.read ∷ [] })

-- What a round says of the loop: `again` are the rounds that follow.
abbrev pub go_on :
    Outcome ProtError Bool × Copy
    → (Copy → Outcome ProtError Bool × Copy)
    → Outcome ProtError Bool × Copy
go_on r again = r >>> λ more t. elim more [ true ↦ again t | false ↦ (ok false, t) ]

-- The loop over the events to come: one that is not enabled does not run.
unfoldable pub bind : List Event → Copy → Outcome ProtError Bool × Copy
bind [] s = (ok true, s)
bind (e ∷ es) s =
    let ran = go_on (select e s) (λ t. bind es t) in
    let rest = bind es s in if is_enabled e s then ran else rest
