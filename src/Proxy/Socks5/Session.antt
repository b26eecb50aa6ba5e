-- ===== src/Proxy/Socks5/Session.antt =====
-- What a SOCKS5 server reads of the client in src/proxy.rs: a decoder after RFC 1928 and RFC 1929.
use Prim.Native.String.{String}
use dmeng.Prelude.{
  ℕ, ◌+◌, ◌*◌, ◌/◌, ◌%◌, ◌<◌, ◌≡◌, refl, sym, ap, ◌∙◌, Bool, true, false, Option, none, some, [],
  ◌∷◌, ◌++◌, append_assoc, append-nil, length, length-append, take, drop, take-append-le,
  take-length-append, drop-length-append, leb, ◌==◌, arith, if◌then◌else◌, Bool-cases, inl, inr,
}
use dmeng.Prelude.Poll.{Outcome, ok, err, panic, ◌>>>◌, >>>_inv}
use dmeng.Transport.{Result, good, bad}
use dmeng.Error.{Bytes, ProtError, extension}
use dmeng.Proxy.Platform.{Stream, StreamLaws, awaited}
use dmeng.Proxy.Socks5.{
  method_error, connect_error, Auth, len_u8, byte0, byte1, auth_error, greeting, auth_request,
  connect_request, exchange, authenticate, port_or_80, socks5_connect,
}

infixl 5 ◌>>=◌
abbrev ◌>>=◌ : {A B : Type 0} → Option A → (A → Option B) → Option B
none >>= f = none
some a >>= f = f a

>>=_some :
    {A B : Type 0} (m : Option A) (f : A → Option B) {b : B}
    → (m >>= f) ≡ some b
    → (a : A) × (m ≡ some a) × (f a ≡ some b)
>>=_some none f h = absurd (cc)
>>=_some (some a) f h = (a, refl, h)

-- A byte that counts, and so many bytes.
unfoldable pub take_counted : Bytes → Option (Bytes × Bytes)
take_counted [] = none
take_counted (n ∷ b) = if leb n (length b) then some (take n b, drop n b) else none

expect : ℕ → Bytes → Option Bytes
expect n [] = none
expect n (x ∷ b) = if x == n then some b else none

take_port : Bytes → Option (ℕ × Bytes)
take_port (hi ∷ lo ∷ b) = some (hi * 256 + lo, b)
take_port b = none

-- The methods that are offered, the user with the password, and the host with the port.
parse_greeting : Bytes → Option (Bytes × Bytes)
unfolding expect
parse_greeting b = expect 5 b >>= take_counted

parse_auth : Bytes → Option ((Bytes × Bytes) × Bytes)
unfolding expect
parse_auth b = do
  b₁ ← expect 1 b
  (user, b₂) ← take_counted b₁
  (pass, b₃) ← take_counted b₂
  some ((user, pass), b₃)

unfoldable pub parse_connect : Bytes → Option (Bytes × ℕ × Bytes)
unfolding expect take_port
parse_connect b = do
  b₁ ← expect 5 b
  b₂ ← expect 1 b₁
  b₃ ← expect 0 b₂
  b₄ ← expect 3 b₃
  (domain, b₅) ← take_counted b₄
  (port, b₆) ← take_port b₅
  some (domain, port, b₆)

parse_choice : Bool → Bytes → Option (Auth × Bytes)
unfolding parse_auth
parse_choice true b = parse_auth b >>= λ r. some (some r.0, r.1)
parse_choice false b = some (none, b)

-- A whole session: `chosen` says that the server chose user and password.
pub parse_session : Bool → Bytes → Option (Bytes × Auth × Bytes × ℕ × Bytes)
unfolding parse_greeting parse_choice parse_connect
parse_session chosen b = do
  (methods, b₁) ← parse_greeting b
  (auth, b₂) ← parse_choice chosen b₁
  (domain, port, b₃) ← parse_connect b₂
  some (methods, auth, domain, port, b₃)

-- What has at most 255 bytes is read back.
take_counted_lem : (b r : Bytes) → length b < 256 → take_counted (len_u8 b ∷ (b ++ r)) ≡ some (b, r)
unfolding take_counted
take_counted_lem b r short =
    let e : length b % 256 ≡ length b = omega arith in
    let fits : leb (length b) (length (b ++ r)) ≡ true = ground (arith, length-append b r) in
    rw e (simp (fits, take-length-append, drop-length-append))

-- What is read has the announced length.
take_counted-cut :
    (b r v u : Bytes)
    → take_counted (len_u8 b ∷ (b ++ r)) ≡ some (v, u)
    → v ≡ take (length b % 256) b
unfolding take_counted
take_counted-cut b r v u e =
    let fits : leb (length b % 256) (length (b ++ r)) ≡ true = ground (arith, length-append b r) in
    let h = rw fits at e in
    let w : v ≡ take (length b % 256) (b ++ r) = cc in
    w ∙ take-append-le (length b % 256) b r (omega arith)

module _ (c : Stream) (laws : StreamLaws c) where
  open laws use {sent, incoming, write_all_good, read_exact_good, put_u16_lem}

  parse_connect-request :
      (domain : Bytes) (port : ℕ)
      → length domain < 256
      → port < 65536
      → parse_connect (connect_request c domain port) ≡ some (domain, port, [])
  unfolding parse_connect expect take_port connect_request
  parse_connect-request domain port short small =
      let e : (port / 256) * 256 + port % 256 ≡ port = omega arith in
      rw (take_counted_lem domain (c.put_u16 port) short)
        (rw (put_u16_lem port small) (ap (λ p. some (domain, p, [])) e))

  abbrev pub Fits : Auth → Type 0
  Fits none = Unit {0}
  Fits (some (user, pass)) = (length user < 256) × (length pass < 256)

  abbrev pub offered : Auth → Bytes
  offered none = []
  offered (some a) = 2 ∷ []

  abbrev answer_of : Bool → Auth → Bytes
  answer_of true (some (user, pass)) = auth_request user pass
  answer_of true none = []
  answer_of false auth = []

  abbrev pub chosen_auth : Bool → Auth → Auth
  chosen_auth true auth = auth
  chosen_auth false auth = none

  greeting_lem :
      (auth : Auth) (r : Bytes) → parse_greeting (greeting auth ++ r) ≡ some (offered auth, r)
  unfolding parse_greeting expect greeting
  greeting_lem none r = take_counted_lem [] r (omega arith)
  greeting_lem (some a) r = take_counted_lem (2 ∷ []) r (omega arith)

  auth_lem :
      (user pass r : Bytes)
      → length user < 256
      → length pass < 256
      → parse_auth (auth_request user pass ++ r) ≡ some ((user, pass), r)
  unfolding parse_auth expect auth_request
  auth_lem user pass r u p = rw (append_assoc user (len_u8 pass ∷ pass) r) (
      rw (take_counted_lem user (len_u8 pass ∷ (pass ++ r)) u)
        (rw (take_counted_lem pass r p) refl))

  -- What the code makes of an answer does not send anything.
  answered-sent :
      (e : Option String) (m : ℕ) (v : c.Io)
      → sent
          (elim e as (λ _. Outcome ProtError ℕ × c.Io) [
            | none ↦ (ok m, v)
            | some x ↦ (err (extension x), v)
          ]).1
        ≡ sent v
  answered-sent none m v = refl
  answered-sent (some x) m v = refl

  received-sent :
      (n : ℕ) (fails : ℕ → ℕ → Option String) (m : ℕ) (t : c.Io) (q : Result Bytes × c.Io)
      → c.read_exact n t ≡ q
      → let r =
          (awaited q >>> λ b v.
          (elim (fails (byte0 b) (byte1 b)) as (λ _. Outcome ProtError ℕ × c.Io) [
            | none ↦ (ok (byte1 b), v)
            | some e ↦ (err (extension e), v)
          ])) in
        r.0 ≡ ok m → sent r.1 ≡ sent t
  received-sent n fails m t (good b, v) e h =
      answered-sent (fails (byte0 b) (byte1 b)) (byte1 b) v ∙ (read_exact_good n b t v e).2
  received-sent n fails m t (bad x, v) e h = absurd (cc)

  -- An exchange that is ok has sent its request.
  exchange-sent :
      (request : Bytes) (n : ℕ) (fails : ℕ → ℕ → Option String) (s : c.Io) (m : ℕ)
      → (exchange c request n fails s).0 ≡ ok m
      → sent (exchange c request n fails s).1 ≡ sent s ++ request
  unfolding exchange
  exchange-sent request n fails s m h = written (c.write_all request s) refl h
    where
      written :
          (q : Result (Unit {0}) × c.Io)
          → c.write_all request s ≡ q
          → let r =
              (awaited q >>> λ u t.
              (awaited (c.read_exact n t) >>> λ b v.
              (elim (fails (byte0 b) (byte1 b)) as (λ w. Outcome ProtError ℕ × c.Io) [
                | none ↦ (ok (byte1 b), v)
                | some e ↦ (err (extension e), v)
              ]))) in
            r.0 ≡ ok m → sent r.1 ≡ sent s ++ request
      written (good u, t) e k =
          received-sent n fails m t (c.read_exact n t) refl k ∙ (write_all_good request s t e).0
      written (bad x, t) e k = absurd (cc)

  -- The answer of an exchange that is ok is the second byte that was there to read.
  exchange-byte1 :
      (request : Bytes) (fails : ℕ → ℕ → Option String) (s : c.Io) (m : ℕ)
      → (exchange c request 2 fails s).0 ≡ ok m
      → m ≡ byte1 (incoming s)
  unfolding exchange
  exchange-byte1 request fails s m h = written (c.write_all request s) refl h
    where
      byte1-append : (b r : Bytes) → length b ≡ 2 → byte1 b ≡ byte1 (b ++ r)
      byte1-append [] r e = absurd (omega (arith, e))
      byte1-append (x ∷ []) r e = absurd (omega (arith, e))
      byte1-append (x ∷ y ∷ b) r e = refl

      answered :
          (e : Option String) (b : ℕ) (v : c.Io)
          → (elim e as (λ _. Outcome ProtError ℕ × c.Io) [
            | none ↦ (ok b, v)
            | some x ↦ (err (extension x), v)
          ]).0
            ≡ ok m
          → m ≡ b
      answered none b v k = cc
      answered (some x) b v k = absurd (cc)

      received :
          (t : c.Io) (q : Result Bytes × c.Io)
          → c.read_exact 2 t ≡ q
          → (awaited q >>> λ b v.
              (elim (fails (byte0 b) (byte1 b)) as (λ _. Outcome ProtError ℕ × c.Io) [
                | none ↦ (ok (byte1 b), v)
                | some e ↦ (err (extension e), v)
              ])).0
            ≡ ok m
          → m ≡ byte1 (incoming t)
      received t (good b, v) e k =
          let (two, came, same) = read_exact_good 2 b t v e in
          answered (fails (byte0 b) (byte1 b)) (byte1 b) v k
          ∙ byte1-append b (incoming v) two
          ∙ ap byte1 (sym came)
      received t (bad x, v) e k = absurd (cc)

      written :
          (q : Result (Unit {0}) × c.Io)
          → c.write_all request s ≡ q
          → (awaited q >>> λ u t.
              (awaited (c.read_exact 2 t) >>> λ b v.
              (elim (fails (byte0 b) (byte1 b)) as (λ w. Outcome ProtError ℕ × c.Io) [
                | none ↦ (ok (byte1 b), v)
                | some e ↦ (err (extension e), v)
              ]))).0
            ≡ ok m
          → m ≡ byte1 (incoming s)
      written (good u, t) e k =
          received t (c.read_exact 2 t) refl k ∙ ap byte1 (write_all_good request s t e).1
      written (bad x, t) e k = absurd (cc)

  authenticate-sent :
      (auth : Auth) (method : ℕ) (s : c.Io) (m : ℕ)
      → Fits auth
      → (authenticate c auth method s).0 ≡ ok m
      → (sent (authenticate c auth method s).1 ≡ sent s ++ answer_of (method == 2) auth)
        × ((r : Bytes)
            → parse_choice (method == 2) (answer_of (method == 2) auth ++ r)
              ≡ some (chosen_auth (method == 2) auth, r))
  unfolding authenticate parse_choice
  authenticate-sent auth method s m fits h = elim (Bool-cases (method == 2)) [
    | inl two ↦ rw two (with_user auth fits (rw two at h))
    | inr not_two ↦ rw not_two (sym (append-nil (sent s)), λ r. refl)
  ]
    where
      with_user :
          (a : Auth)
          → Fits a
          → let q = (elim a as (λ w. Outcome ProtError ℕ × c.Io) [
            | none ↦ (panic, s)
            | some (user, pass) ↦ exchange c (auth_request user pass) 2 (auth_error c) s
          ]) in
            q.0 ≡ ok m
            → (sent q.1 ≡ sent s ++ answer_of true a)
              × ((r : Bytes) → parse_choice true (answer_of true a ++ r) ≡ some (a, r))
      with_user none f k = absurd (cc)
      with_user (some (user, pass)) f k = (
        exchange-sent (auth_request user pass) 2 (auth_error c) s m k,
        λ r. rw (auth_lem user pass r f.0 f.1) refl,
      )

  session_lem :
      (domain : Bytes) (port : ℕ) (auth : Auth) (chosen : Bool)
      → length domain < 256
      → port < 65536
      → ((r : Bytes)
          → parse_choice chosen (answer_of chosen auth ++ r) ≡ some (chosen_auth chosen auth, r))
      → parse_session chosen
          (greeting auth ++ (answer_of chosen auth ++ connect_request c domain port))
        ≡ some (offered auth, chosen_auth chosen auth, domain, port, [])
  unfolding parse_session
  session_lem domain port auth chosen short small choice =
      rw (greeting_lem auth (answer_of chosen auth ++ connect_request c domain port)) (
        rw (choice (connect_request c domain port))
          (rw (parse_connect-request domain port short small) refl))

  -- The method that the proxy chooses: whether it is that of user and password.
  abbrev pub chooses : c.Io → Bool
  chooses s = byte1 (incoming s) == 2

  -- A connection that is made has sent one whole session. A server that decodes it after the RFCs, and that
  -- chose the method which the second byte of its answers names, reads the user and the password if it
  -- chose them and none otherwise, the host and the port, and nothing more. The names have at most 255
  -- bytes, and the port fits 16 bits.
  pub socks5_connect-session :
      (domain : Bytes) (port : Option ℕ) (auth : Auth) (s : c.Io)
      → length domain < 256
      → port_or_80 port < 65536
      → Fits auth
      → (socks5_connect c (some domain) port auth s).0 ≡ ok tt
      → (asked : Bytes) × (sent (socks5_connect c (some domain) port auth s).1 ≡ sent s ++ asked)
        × (parse_session (chooses s) asked
            ≡ some (offered auth, chosen_auth (chooses s) auth, domain, port_or_80 port, []))
  unfolding socks5_connect
  socks5_connect-session domain port auth s short small fits h =
      let request = connect_request c domain (port_or_80 port) in
      let i = >>>_inv (exchange c (greeting auth) 2 (method_error c) s) _ tt h in
      let t = (exchange c (greeting auth) 2 (method_error c) s).1 in
      let j = >>>_inv (authenticate c auth i.0 t) _ tt i.2 in
      let u = (authenticate c auth i.0 t).1 in
      let k = >>>_inv (exchange c request 10 (connect_error c) u) _ tt j.2 in
      let greeted = exchange-sent (greeting auth) 2 (method_error c) s i.0 i.1 in
      let method = exchange-byte1 (greeting auth) (method_error c) s i.0 i.1 in
      let known : (sent u ≡ sent t ++ answer_of (chooses s) auth)
          × ((r : Bytes)
              → parse_choice (chooses s) (answer_of (chooses s) auth ++ r)
                ≡ some (chosen_auth (chooses s) auth, r)) =
        rw⁻¹ method (authenticate-sent auth i.0 t j.0 fits j.1) in
      let asked = exchange-sent request 10 (connect_error c) u k.0 k.1 in
      let answer = answer_of (chooses s) auth in
      (
        greeting auth ++ (answer ++ request),
        ap sent (i.3 ∙ (j.3 ∙ k.3))
            ∙ asked
            ∙ ap (λ b. b ++ request) (known.0 ∙ ap (λ b. b ++ answer) greeted)
            ∙ append_assoc (sent s ++ greeting auth) answer request
            ∙ append_assoc (sent s) (greeting auth) (answer ++ request),
        session_lem domain (port_or_80 port) auth (chooses s) short small known.1,
      )

  -- Whatever the length of a host, where a server can read the request, what it reads as the host is its
  -- first `length % 256` bytes.
  pub connect_request-cuts :
      (domain : Bytes) (port n : ℕ) (host rest : Bytes)
      → parse_connect (connect_request c domain port) ≡ some (host, n, rest)
      → host ≡ take (length domain % 256) domain
  unfolding parse_connect expect connect_request
  connect_request-cuts domain port n host rest e =
      let i = >>=_some (take_counted (len_u8 domain ∷ (domain ++ c.put_u16 port))) _ e in
      let j = >>=_some (take_port i.0.1) _ i.2 in
      let k = j.2 in
      let same : i.0.0 ≡ host = cc in
      sym same ∙ take_counted-cut domain (c.put_u16 port) i.0.0 i.0.1 i.1
