-- ===== src/Proxy/Select.antt =====
-- `ProxyScheme` of src/proxy.rs: the proxies that the environment names, and which of them connects. The
-- choice among proxies is that of `connect_with_domain` in src/client.rs. A header value is its bytes.
pub mod Order
use Prim.Native.String.{String}
use dmeng.Prelude.{
  ℕ, Bool, true, false, not, ◌&&◌, ◌||◌, Option, none, some, List, [], ◌∷◌, ◌++◌, ◌==◌,
  if◌then◌else◌,
}
use dmeng.Prelude.Poll.{Outcome, ok, err, panic, ◌>>>◌, ◌>>=◌}
use dmeng.Transport.{Result, good, bad}
use dmeng.Error.{Bytes, ProtError, extension}
use dmeng.Proxy.Platform.{Stream, Scheme, http, https, socks5, other, Url, Environment, awaited}
use dmeng.Proxy.Tunnel.{tunnel, same_bytes, codes}
use dmeng.Proxy.Socks5.{Auth, socks5_connect}

pub data ProxyScheme (Addr : Type 0) : Type 0 where
  http_proxy : Addr → Option Bytes → ProxyScheme Addr
  https_proxy : Addr → Option Bytes → ProxyScheme Addr
  socks5_proxy : Addr → Auth → ProxyScheme Addr

both : Option Bytes → Option Bytes → Auth
both (some user) (some pass) = some (user, pass)
both (some user) none = none
both none pass = none

module _ {Addr : Type 0} where
  unfoldable pub trans_http : ProxyScheme Addr → Outcome ProtError (ProxyScheme Addr)
  trans_http (http_proxy addr auth) = ok (http_proxy addr auth)
  trans_http (https_proxy addr auth) = ok (http_proxy addr auth)
  trans_http (socks5_proxy addr auth) = err (extension "unknow type")

  unfoldable pub trans_https : ProxyScheme Addr → Outcome ProtError (ProxyScheme Addr)
  trans_https (http_proxy addr auth) = ok (https_proxy addr auth)
  trans_https (https_proxy addr auth) = ok (https_proxy addr auth)
  trans_https (socks5_proxy addr auth) = err (extension "unknow type")

  -- A value that is no proxy, or of a kind that cannot be turned, puts nothing in.
  pushed :
      List (ProxyScheme Addr)
      → Outcome ProtError (ProxyScheme Addr)
      → Bool × List (ProxyScheme Addr)
  pushed proxies (ok proxy) = (true, proxies ++ proxy ∷ [])
  pushed proxies _ = (false, proxies)

module _ {Addr : Type 0} (env : Environment Addr) where
  unfoldable pub basic_auth : Auth → Option Bytes
  basic_auth none = none
  basic_auth (some (user, pass)) = some (env.basic user pass)

  by_scheme : Scheme → Addr → Auth → Outcome ProtError (ProxyScheme Addr)
  unfolding basic_auth
  by_scheme http addr auth = ok (http_proxy addr (basic_auth auth))
  by_scheme https addr auth = ok (https_proxy addr (basic_auth auth))
  by_scheme socks5 addr auth = ok (socks5_proxy addr auth)
  by_scheme other addr auth = err (extension "unknow scheme")

  with_addr : Url Addr → Option (Option Addr) → Outcome ProtError (ProxyScheme Addr)
  unfolding by_scheme both
  with_addr url none = err (extension "unknow addr")
  with_addr url (some none) = err (extension "unknow parse")
  with_addr url (some (some addr)) = by_scheme url.scheme addr (both url.username url.password)

  unfoldable pub try_from : Bytes → Outcome ProtError (ProxyScheme Addr)
  unfolding with_addr
  try_from value = elim (env.parse_url value) [ bad e ↦ err e | good url ↦ with_addr url url.addr ]

  -- `scheme.is_http()` says which way the proxy is turned.
  unfoldable pub insert_from_env :
      Bool → String → List (ProxyScheme Addr) → Bool × List (ProxyScheme Addr)
  unfolding pushed trans_http trans_https
  insert_from_env is_http key proxies = elim (env.var key) [
    | none ↦ (false, proxies)
    | some val ↦
        pushed proxies
          (try_from val >>= λ proxy. (if is_http then trans_http proxy else trans_https proxy))
  ]

  -- `if !insert(key) { insert(other) }`.
  unfoldable pub insert_either :
      Bool → String → String → List (ProxyScheme Addr) → List (ProxyScheme Addr)
  insert_either is_http key other_ proxies =
      let r = insert_from_env is_http key proxies in
      if r.0 then r.1 else (insert_from_env is_http other_ r.1).1

  -- `ALL_PROXY`: where it does not serve both, `all_proxy` is put in for both.
  unfoldable pub insert_all : List (ProxyScheme Addr) → List (ProxyScheme Addr)
  insert_all proxies =
      let r = insert_from_env true "ALL_PROXY" proxies in
      let q = if r.0 then insert_from_env false "ALL_PROXY" r.1 else (false, r.1) in
      if q.0
      then q.1
      else (insert_from_env false "all_proxy" (insert_from_env true "all_proxy" q.1).1).1

  unfoldable pub get_from_environment : List (ProxyScheme Addr)
  get_from_environment = insert_all (
      insert_either false "HTTPS_PROXY" "https_proxy"
        (insert_either true "HTTP_PROXY" "http_proxy" []))

module _ {Addr : Type 0} (env : Environment Addr) where
  contains : Bytes → List Bytes → Bool
  contains host [] = false
  contains host (x ∷ xs) = same_bytes host x || contains host xs

  -- `split` cuts at commas and trims.
  names : (Bytes → List Bytes) → Option Bytes → Option (List Bytes)
  names split none = none
  names split (some val) = some (split val)

  either : Option (List Bytes) → Option (List Bytes) → List Bytes
  either (some xs) ys = xs
  either none (some ys) = ys
  either none none = []

  -- The hosts that need no proxy.
  unfoldable pub get_env_no_proxy : (Bytes → List Bytes) → List Bytes
  unfolding names either
  get_env_no_proxy split =
      codes "localhost"
      ∷ codes "127.0.0.1"
      ∷ codes "::1"
      ∷ either (names split (env.var "NO_PROXY")) (names split (env.var "no_proxy"))

  unfoldable pub is_no_proxy : (Bytes → List Bytes) → Bytes → Bool
  unfolding contains get_env_no_proxy
  is_no_proxy split host = contains host (get_env_no_proxy split)

-- `fix_request`: `insert` sets the header `Proxy-Authorization`.
unfoldable pub fix_request :
    {Addr Req : Type 0} → (Bytes → Req → Req) → ProxyScheme Addr → Req → Req
fix_request insert (http_proxy addr none) req = req
fix_request insert (http_proxy addr (some auth)) req = insert auth req
fix_request insert (https_proxy addr auth) req = req
fix_request insert (socks5_proxy addr auth) req = req

unfoldable pub is_https : Scheme → Bool
is_https http = false
is_https https = true
is_https socks5 = false
is_https other = false

-- `connect` is `TcpStream::connect`, and `digits` writes a port.
module _ {Addr : Type 0} (c : Stream) (connect : Addr → Result c.Io) (digits : ℕ → Bytes) where
  abbrev domain_or_empty : Option Bytes → Bytes
  domain_or_empty none = []
  domain_or_empty (some d) = d

  abbrev port_or_443 : Option ℕ → ℕ
  port_or_443 none = 443
  port_or_443 (some n) = n

  -- `Ok(Some(tcp))` where what follows on the connection is ok.
  connected : Outcome ProtError (Unit {0}) × c.Io → Outcome ProtError (Option c.Io)
  connected r = r.0 >>= λ u. ok (some r.1)

  through_tunnel : Url Addr → Option Bytes → c.Io → Outcome ProtError (Option c.Io)
  unfolding connected
  through_tunnel url auth tcp =
      connected
        (tunnel c (domain_or_empty url.domain) (digits (port_or_443 url.port)) none auth tcp)

  opened : Result c.Io → Outcome ProtError c.Io
  opened (good tcp) = ok tcp
  opened (bad e) = err e

  -- `Ok(None)` says that this proxy does not serve the URL.
  unfoldable pub proxy_connect : Url Addr → ProxyScheme Addr → Outcome ProtError (Option c.Io)
  unfolding through_tunnel connected opened is_https
  proxy_connect url (http_proxy addr auth) = opened (connect addr) >>= λ tcp.
      (if is_https url.scheme then through_tunnel url auth tcp else ok (some tcp))
  proxy_connect url (https_proxy addr auth) =
      if is_https url.scheme
      then (opened (connect addr) >>= λ tcp. through_tunnel url auth tcp)
      else ok none
  proxy_connect url (socks5_proxy addr auth) =
      opened (connect addr) >>= λ tcp. connected (socks5_connect c url.domain url.port auth tcp)

  -- The loop over the proxies: the first one that serves the URL, with the connection; an error ends it.
  unfoldable pub first_proxy :
      Url Addr → List (ProxyScheme Addr) → Outcome ProtError (Option (ProxyScheme Addr × c.Io))
  first_proxy url [] = ok none
  first_proxy url (x ∷ xs) =
      let rest = first_proxy url xs in
      proxy_connect url x >>= λ r. (elim r [ some tcp ↦ ok (some (x, tcp)) | none ↦ rest ])

  -- The choice of `connect_with_domain`: the proxies that the client is given, or those of the environment
  -- unless the host needs none. `none` is the direct connection.
  unfoldable pub choose_proxy :
      Environment Addr
      → (Bytes → List Bytes)
      → Url Addr
      → List (ProxyScheme Addr)
      → Outcome ProtError (Option (ProxyScheme Addr × c.Io))
  unfolding first_proxy
  choose_proxy env split url [] =
      if is_no_proxy env split (domain_or_empty url.domain)
      then ok none
      else first_proxy url (get_from_environment env)
  choose_proxy env split url (x ∷ xs) = first_proxy url (x ∷ xs) >>= λ r. (elim r [
    | some found ↦ ok (some found)
    | none ↦ err (extension "not proxy error!")
  ])
