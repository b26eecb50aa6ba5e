-- ===== src/Proxy/Examples.antt =====
-- Proxies over a stream that is the bytes written and the bytes to be read.
use text.Mathlib.Text.{◌==◌ as str_eq}
use dmeng.Prelude.{
  ℕ, zero, suc, ◌≤◌, ◌≡◌, refl, sym, ap, Bool, none, some, [], ◌∷◌, ◌++◌, length, length-take, take,
  drop, take-append-drop, ◌∙◌, ltb, if◌then◌else◌, arith, ◌/◌, ◌%◌, true, false, List,
}
use dmeng.Prelude.Poll.{ok, err}
use dmeng.Transport.{Result, good, bad}
use dmeng.Error.{Bytes, io_error, extension}
use dmeng.Proxy.Platform.{Stream, StreamLaws, Environment, Url, https, http}
use dmeng.Proxy.Tunnel.{tunnel, codes, request}
use dmeng.Proxy.Tunnel.Answer.{Settled, tunnel-Settled, tunnel-short_read}
use dmeng.Proxy.Socks5.{Auth, socks5_connect, greeting, connect_request}
use dmeng.Proxy.Socks5.Session.{
  offered, chosen_auth, socks5_connect-session, connect_request-cuts, parse_session, parse_connect,
}
use dmeng.Proxy.Select.{
  choose_proxy, is_no_proxy, http_proxy, try_from, trans_http, get_from_environment, first_proxy,
}
use dmeng.Proxy.Select.Order.{get_from_environment-AllTurned, choose_proxy-http, AllTurned}

abbrev pipe : Stream
pipe = record {
  Io = Bytes × Bytes;
  write_all = λ b s. (good tt, (s.0 ++ b, s.1));
  read = λ n s. (good (take n s.1), (s.0, drop n s.1));
  read_exact = λ n s.
      (if ltb (length s.1) n then bad (io_error 38) else good (take n s.1), (s.0, drop n s.1));
  put_u16 = λ n. (n / 256) ∷ (n % 256) ∷ [];
}

good_injective : {a b : Bytes} → good a ≡ good b → a ≡ b
good_injective h = cc

read_lem :
    (n : ℕ) (b : Bytes) (s t : Bytes × Bytes)
    → pipe.read n s ≡ (good b, t)
    → (length b ≤ n) × (s.1 ≡ b ++ t.1) × (t.0 ≡ s.0)
read_lem n b s t e =
    let given : take n s.1 ≡ b = good_injective (ap (λ r. r.0) e) in
    let left : drop n s.1 ≡ t.1 = ap (λ r. r.1.1) e in
    (
      omega (arith, length-take n s.1, ap length given),
      sym (take-append-drop n s.1) ∙ ap (λ x. x ++ drop n s.1) given ∙ ap (λ x. b ++ x) left,
      ap (λ r. r.1.0) (sym e),
    )

abbrev Read : Result Bytes × (Bytes × Bytes) → Bytes → Bytes × Bytes → Type 0
Read r b t = r ≡ (good b, t)

read_exact_lem :
    (n : ℕ) (b : Bytes) (s t : Bytes × Bytes)
    → pipe.read_exact n s ≡ (good b, t)
    → (length b ≡ n) × (s.1 ≡ b ++ t.1) × (t.0 ≡ s.0)
read_exact_lem n b s t e = given (ltb (length s.1) n) refl e
  where
    given :
        (few : Bool)
        → ltb (length s.1) n ≡ few
        → Read (if few then bad (io_error 38) else good (take n s.1), (s.0, drop n s.1)) b t
        → (length b ≡ n) × (s.1 ≡ b ++ t.1) × (t.0 ≡ s.0)
    given true k h = absurd (cc)
    given false k h =
        let (short, came, same) = read_lem n b s t h in
        let taken : take n s.1 ≡ b = good_injective (ap (λ r. r.0) h) in
        (ground (arith, length-take n s.1, ap length taken), came, same)

abbrev laws : StreamLaws pipe
laws = record {
  sent = λ s. s.0;
  incoming = λ s. s.1;
  write_all_good = λ b s t e. (ap (λ r. r.1.0) (sym e), ap (λ r. r.1.1) (sym e));
  read_good = read_lem;
  read_exact_good = read_exact_lem;
  put_u16_lem = λ n h. refl;
}

-- A proxy that grants the tunnel.
abbrev granted : Bytes
granted = codes "HTTP/1.1 200 OK\r\n\r\n"

tunnel-Settled_example :
    Settled pipe laws []
      ([], granted)
      (tunnel pipe (codes "a.org") (codes "443") none none ([], granted))
tunnel-Settled_example =
    tunnel-Settled pipe laws (codes "a.org") (codes "443") none none ([], granted)

-- The same answer in two pieces.
abbrev asked : Bytes
asked = request (codes "a.org") (codes "443") none none

tunnel-short_read_example :
    tunnel pipe (codes "a.org") (codes "443") none none ([], codes "HTTP/1.1")
    ≡ (err (extension "unsuccessful tunnel"), (asked, []))
tunnel-short_read_example =
    tunnel-short_read pipe (codes "a.org") (codes "443") none none ([], codes "HTTP/1.1")
      (asked, codes "HTTP/1.1") (asked, []) (codes "HTTP/1.1") refl refl (omega arith) (omega arith)

-- A server that chooses user and password, takes them, and connects.
abbrev serving : Bytes
serving = 5 ∷ 2 ∷ 1 ∷ 0 ∷ 5 ∷ 0 ∷ 0 ∷ 1 ∷ 0 ∷ 0 ∷ 0 ∷ 0 ∷ 0 ∷ 0 ∷ []

abbrev user : Auth
user = some (codes "me", codes "pw")

serves : (socks5_connect pipe (some (codes "a.org")) none user ([], serving)).0 ≡ ok tt
unfolding socks5_connect dmeng.Proxy.Socks5.exchange dmeng.Proxy.Socks5.authenticate
serves = refl

socks5_connect-session_example :
    (sent_ : Bytes) × ((socks5_connect pipe (some (codes "a.org")) none user ([], serving)).1.0
      ≡ [] ++ sent_)
    × (parse_session true sent_ ≡ some (offered pipe laws user, user, codes "a.org", 80, []))
socks5_connect-session_example =
    socks5_connect-session pipe laws (codes "a.org") none user ([], serving) (omega arith)
      (omega arith) (omega arith, omega arith) serves

-- Both variables name a proxy.
abbrev environment : Environment ℕ
environment = record {
  var = λ key.
      if str_eq key "HTTP_PROXY"
      then some (1 ∷ [])
      else if str_eq key "HTTPS_PROXY"
      then some (2 ∷ [])
      else none;
  parse_url = λ b. good (record {
    scheme = http;
    domain = none;
    port = none;
    username = none;
    password = none;
    addr = some (some (length b));
  });
  basic = λ user_ pass. user_;
}

get_from_environment-AllTurned_example : AllTurned (get_from_environment environment)
get_from_environment-AllTurned_example = get_from_environment-AllTurned environment

abbrev target : Url ℕ
target = record {
  scheme = https;
  domain = some (codes "a.org");
  port = none;
  username = none;
  password = none;
  addr = none;
}

abbrev commas : Bytes → List Bytes
commas b = b ∷ []

choose_proxy-http_example :
    choose_proxy pipe (λ a. good ([], granted)) (λ n. []) environment commas target []
    ≡ first_proxy pipe (λ a. good ([], granted)) (λ n. []) target (http_proxy 1 none ∷ [])
unfolding try_from trans_http is_no_proxy dmeng.Proxy.Select.get_env_no_proxy
choose_proxy-http_example =
    choose_proxy-http pipe (λ a. good ([], granted)) (λ n. []) target environment commas (1 ∷ []) 1
      none refl refl refl

abbrev zeros : ℕ → Bytes
zeros zero = []
zeros (suc n) = 0 ∷ zeros n

-- Of a host of 256 bytes the server reads none.
cut_host :
    parse_connect (connect_request pipe (zeros 256) 80) ≡ some ([], 0, zeros 254 ++ 0 ∷ 80 ∷ [])
unfolding parse_connect connect_request dmeng.Proxy.Socks5.Session.take_counted
cut_host = refl

connect_request-cuts_example : [] ≡ take (length (zeros 256) % 256) (zeros 256)
connect_request-cuts_example =
    connect_request-cuts pipe laws (zeros 256) 80 0 [] (zeros 254 ++ 0 ∷ 80 ∷ []) cut_host
