-- ===== src/Proxy/Tunnel.antt =====
-- `tunnel` of src/proxy.rs: the request to an HTTP proxy, and the wait for its answer.
pub mod Answer
use Prim.Native.String.{String}
use Prim.Native.Char.{code}
use dmeng.Prelude.{
  ℕ, zero, suc, ◌+◌, ◌-◌, Bool, true, false, ◌&&◌, ◌||◌, Option, none, some, List, [], ◌∷◌, ◌++◌,
  length, ◌==◌, if◌then◌else◌, take, drop,
}
use dmeng.Prelude.Poll.{Outcome, ok, err, spin, ◌>>>◌}
use dmeng.Error.{Bytes, ProtError, extension}
use dmeng.Http2.Codec.{is_empty}
use dmeng.Proxy.Platform.{Stream, awaited}

-- The bytes of an ASCII text.
abbrev pub codes : String → Bytes
codes String.[] = []
codes (String.◌∷◌ c s) = code c ∷ codes s

abbrev pub crlf : Bytes
crlf = 13 ∷ 10 ∷ []

abbrev pub same_bytes : Bytes → Bytes → Bool
same_bytes [] [] = true
same_bytes [] (y ∷ ys) = false
same_bytes (x ∷ xs) [] = false
same_bytes (x ∷ xs) (y ∷ ys) = x == y && same_bytes xs ys

abbrev pub starts_with : Bytes → Bytes → Bool
starts_with p r = same_bytes p (take (length p) r)

abbrev pub ends_with : Bytes → Bytes → Bool
ends_with p r = same_bytes p (drop (length r - length p) r)

-- A header line, where there is a value.
unfoldable pub header : Bytes → Option Bytes → Bytes
header name none = []
header name (some value) = name ++ (value ++ crlf)

-- `port` is the port's digits.
unfoldable pub request : Bytes → Bytes → Option Bytes → Option Bytes → Bytes
unfolding header
request host port user_agent auth =
    let target = host ++ (codes ":" ++ port) in
    codes "CONNECT "
    ++ (target
        ++ (codes " HTTP/1.1"
            ++ (crlf
                ++ (codes "Host: "
                    ++ (target
                        ++ (crlf
                            ++ (header (codes "User-Agent: ") user_agent
                                ++ (header (codes "Proxy-Authorization: ") auth ++ crlf))))))))

-- The size of the buffer.
abbrev pub buffer_len : ℕ
buffer_len = 8192

pub data Verdict : Type 0 where
  done : Verdict
  more : Verdict
  fails : String → Verdict

abbrev pub is_established : Bytes → Bool
is_established recvd =
    starts_with (codes "HTTP/1.1 200") recvd || starts_with (codes "HTTP/1.0 200") recvd

-- What follows from what was received so far.
unfoldable pub verdict : Bytes → Verdict
verdict recvd =
    if is_established recvd
    then (if ends_with (crlf ++ crlf) recvd
        then done
        else if length recvd == buffer_len
        then fails "proxy headers too long for tunnel"
        else more)
    else if starts_with (codes "HTTP/1.1 407") recvd
    then fails "proxy authentication required"
    else fails "unsuccessful tunnel"

module _ (c : Stream) where
  -- The loop, on fuel: a read that is not the last one gives at least one byte.
  unfoldable pub tunnel_loop : ℕ → Bytes → c.Io → Outcome ProtError (Unit {0}) × c.Io
  tunnel_loop zero recvd s = (spin, s)
  tunnel_loop (suc fuel) recvd s = awaited (c.read (buffer_len - length recvd) s) >>> λ b t.
      (elim (is_empty b) [
        | true ↦ (err (extension "eof error"), t)
        | false ↦ elim (verdict (recvd ++ b)) [
          | done ↦ (ok tt, t)
          | more ↦ tunnel_loop fuel (recvd ++ b) t
          | fails e ↦ (err (extension e), t)
        ]
      ])

  unfoldable pub tunnel :
      Bytes → Bytes → Option Bytes → Option Bytes → c.Io → Outcome ProtError (Unit {0}) × c.Io
  unfolding request
  tunnel host port user_agent auth s =
      awaited (c.write_all (request host port user_agent auth) s) >>> λ u t.
      tunnel_loop (suc buffer_len) [] t
