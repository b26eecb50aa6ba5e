-- ===== src/Proxy/Platform.antt =====
-- What src/proxy.rs takes from other libraries: the awaited operations of a stream, URLs and addresses,
-- and the environment.
use Prim.Native.String.{String}
use dmeng.Prelude.{ℕ, ◌≤◌, ◌<◌, ◌≡◌, ◌++◌, Option, [], ◌∷◌, length, ◌/◌, ◌%◌}
use dmeng.Prelude.Poll.{Outcome, ok, err}
use dmeng.Transport.{Result, good, bad}
use dmeng.Error.{Bytes, ProtError}

-- `write_all`, `read` into a buffer with room for so many bytes, and `read_exact`.
pub record Stream : Type 1 where
  pub Io : Type 0
  pub write_all : Bytes → Io → Result (Unit {0}) × Io
  pub read : ℕ → Io → Result Bytes × Io
  pub read_exact : ℕ → Io → Result Bytes × Io
  -- `BinaryMut::put_u16`: the bytes that it appends.
  pub put_u16 : ℕ → Bytes

-- The documented behaviour: what was written, and what is to be read, from the outside.
pub record StreamLaws (s : Stream) : Type 0 where
  pub sent : s.Io → Bytes
  pub incoming : s.Io → Bytes
  pub write_all_good :
      (b : Bytes) (c d : s.Io)
      → s.write_all b c ≡ (good tt, d)
      → (sent d ≡ sent c ++ b) × (incoming d ≡ incoming c)
  pub read_good :
      (n : ℕ) (b : Bytes) (c d : s.Io)
      → s.read n c ≡ (good b, d)
      → (length b ≤ n) × (incoming c ≡ b ++ incoming d) × (sent d ≡ sent c)
  pub read_exact_good :
      (n : ℕ) (b : Bytes) (c d : s.Io)
      → s.read_exact n c ≡ (good b, d)
      → (length b ≡ n) × (incoming c ≡ b ++ incoming d) × (sent d ≡ sent c)
  -- The network's byte order.
  pub put_u16_lem : (n : ℕ) → n < 65536 → s.put_u16 n ≡ (n / 256) ∷ (n % 256) ∷ []

-- `.await?`
abbrev pub awaited : {S A : Type 0} → Result A × S → Outcome ProtError A × S
awaited (good a, s) = (ok a, s)
awaited (bad e, s) = (err e, s)

-- webparse's `Url` after its parse. `addr` is the connect URL read as a socket address: `none` where there
-- is none, `some none` where it is no address.
pub data Scheme : Type 0 where
  http https socks5 other : Scheme

pub record Url (Addr : Type 0) : Type 0 where
  pub scheme : Scheme
  pub domain : Option Bytes
  pub port : Option ℕ
  pub username : Option Bytes
  pub password : Option Bytes
  pub addr : Option (Option Addr)

pub record Environment (Addr : Type 0) : Type 0 where
  pub var : String → Option Bytes
  pub parse_url : Bytes → Result (Url Addr)
  -- The value of a `Basic` header with these two.
  pub basic : Bytes → Bytes → Bytes
