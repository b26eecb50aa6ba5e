-- ===== src/Proxy/Socks5.antt =====
-- `socks5_connect` of src/proxy.rs: the client's side of a SOCKS5 handshake. A length goes out as one byte.
pub mod Session
use Prim.Native.String.{String}
use dmeng.Prelude.{
  ℕ, zero, suc, ◌%◌, Bool, true, false, ◌||◌, not, Option, none, some, List, [], ◌∷◌, ◌++◌, length,
  ◌==◌, if◌then◌else◌,
}
use dmeng.Prelude.Poll.{Outcome, ok, err, panic, ◌>>>◌}
use dmeng.Error.{Bytes, ProtError, extension}
use dmeng.Proxy.Platform.{Stream, awaited}

-- `len() as u8`.
abbrev pub len_u8 : Bytes → ℕ
len_u8 b = length b % 256

abbrev pub Auth : Type 0
Auth = Option (Bytes × Bytes)

-- With a user the method of user and password is offered, without one no method at all.
unfoldable pub greeting : Auth → Bytes
greeting none = 5 ∷ 0 ∷ []
greeting (some a) = 5 ∷ 1 ∷ 2 ∷ []

unfoldable pub auth_request : Bytes → Bytes → Bytes
auth_request user pass = 1 ∷ len_u8 user ∷ (user ++ (len_u8 pass ∷ pass))

-- The bytes at 0 and 1 of the buffer after a `read_exact`.
abbrev pub byte0 : Bytes → ℕ
byte0 [] = 0
byte0 (x ∷ b) = x

abbrev pub byte1 : Bytes → ℕ
byte1 [] = 0
byte1 (x ∷ b) = byte0 b

abbrev pub port_or_80 : Option ℕ → ℕ
port_or_80 none = 80
port_or_80 (some p) = p

module _ (c : Stream) where
  unfoldable pub connect_request : Bytes → ℕ → Bytes
  connect_request domain port = 5 ∷ 1 ∷ 0 ∷ 3 ∷ len_u8 domain ∷ (domain ++ c.put_u16 port)

  -- The answer of the proxy to what was sent: `fails` is what the code makes of its first two bytes.
  unfoldable pub exchange : Bytes → ℕ → (ℕ → ℕ → Option String) → c.Io → Outcome ProtError ℕ × c.Io
  exchange request n fails s = awaited (c.write_all request s) >>> λ u t.
      (awaited (c.read_exact n t) >>> λ b v. (elim (fails (byte0 b) (byte1 b)) [
        | none ↦ (ok (byte1 b), v)
        | some e ↦ (err (extension e), v)
      ]))

  method_error : ℕ → ℕ → Option String
  method_error version method =
      if not (version == 5)
      then some "socks5 error"
      else if method == 2 || method == 0
      then none
      else some "no method for auth"

  auth_error : ℕ → ℕ → Option String
  auth_error version status =
      if not (version == 1) || not (status == 0) then some "user password error" else none

  connect_error : ℕ → ℕ → Option String
  connect_error version status =
      if not (version == 5)
      then some "socks5 error"
      else if not (status == 0)
      then some "network error"
      else none

  -- The method that the proxy chose. `auth.as_ref().unwrap()` panics where there is no user.
  unfoldable pub authenticate : Auth → ℕ → c.Io → Outcome ProtError ℕ × c.Io
  unfolding auth_error
  authenticate auth method s =
      if method == 2
      then elim auth [
        | none ↦ (panic, s)
        | some (user, pass) ↦ exchange (auth_request user pass) 2 auth_error s
      ]
      else (ok 0, s)

  -- `url.domain.as_ref().unwrap()` panics where the URL has no domain.
  ask : Option Bytes → Option ℕ → c.Io → Outcome ProtError ℕ × c.Io
  unfolding connect_error
  ask none port s = (panic, s)
  ask (some domain) port s = exchange (connect_request domain (port_or_80 port)) 10 connect_error s

  unfoldable pub socks5_connect :
      Option Bytes → Option ℕ → Auth → c.Io → Outcome ProtError (Unit {0}) × c.Io
  unfolding method_error ask
  socks5_connect domain port auth s = exchange (greeting auth) 2 method_error s >>> λ method t.
      (authenticate auth method t >>> λ m u. (ask domain port u >>> λ n v. (ok tt, v)))
