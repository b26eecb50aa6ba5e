-- ===== src/Proxy/Select/Order.antt =====
-- Which proxies src/proxy.rs takes from the environment, and which one serves.
use Prim.Native.String.{String}
use mathlib.Core.Path.{subst}
use dmeng.Prelude.{
  ℕ, Bool, true, false, ◌≡◌, refl, sym, ap, ◌∙◌, Option, none, some, List, [], ◌∷◌, ◌++◌,
  append_assoc, append-nil, if◌then◌else◌,
}
use dmeng.Prelude.Poll.{Outcome, pending, ok, err, panic, spin, ◌>>=◌}
use dmeng.Transport.{Result, good, bad}
use dmeng.Error.{Bytes, ProtError}
use dmeng.Proxy.Platform.{Stream, Url, Environment}
use dmeng.Proxy.Select.{
  connected, through_tunnel, opened, ProxyScheme, http_proxy, https_proxy, socks5_proxy, try_from,
  trans_http, trans_https, pushed, is_https, insert_from_env, insert_either, insert_all,
  get_from_environment, proxy_connect, first_proxy, choose_proxy, is_no_proxy, domain_or_empty,
}

module _ {Addr : Type 0} where
  abbrev pub IsTurned : ProxyScheme Addr → Type 0
  IsTurned (http_proxy addr auth) = Unit {0}
  IsTurned (https_proxy addr auth) = Unit {0}
  IsTurned (socks5_proxy addr auth) = ⊥

  abbrev pub AllTurned : List (ProxyScheme Addr) → Type 0
  AllTurned [] = Unit {0}
  AllTurned (x ∷ xs) = IsTurned x × AllTurned xs

  AllTurned-append :
      (xs ys : List (ProxyScheme Addr)) → AllTurned xs → AllTurned ys → AllTurned (xs ++ ys)
  AllTurned-append [] ys a b = b
  AllTurned-append (x ∷ xs) ys a b = (a.0, AllTurned-append xs ys a.1 b)

  -- What is put in stands behind what was there, and is no SOCKS proxy.
  abbrev Adds : List (ProxyScheme Addr) → List (ProxyScheme Addr) → Type 0
  Adds xs ys = (more : List (ProxyScheme Addr)) × (ys ≡ xs ++ more) × AllTurned more

  Adds-refl : (xs : List (ProxyScheme Addr)) → Adds xs xs
  Adds-refl xs = ([], sym (append-nil xs), tt)

  Adds-trans : (xs ys zs : List (ProxyScheme Addr)) → Adds xs ys → Adds ys zs → Adds xs zs
  Adds-trans xs ys zs (m, e, a) (n, f, b) =
      (m ++ n, f ∙ ap (λ t. t ++ n) e ∙ append_assoc xs m n, AllTurned-append m n a b)

  if-Adds :
      (b : Bool) (xs ys zs : List (ProxyScheme Addr))
      → Adds xs ys
      → Adds xs zs
      → Adds xs (if b then ys else zs)
  if-Adds true xs ys zs a c = a
  if-Adds false xs ys zs a c = c

  pushed-Adds :
      (is_http : Bool) (xs : List (ProxyScheme Addr)) (r : Outcome ProtError (ProxyScheme Addr))
      → Adds xs (pushed xs (r >>= λ p. (if is_http then trans_http p else trans_https p))).1
  unfolding pushed trans_http trans_https
  pushed-Adds true xs (ok (http_proxy addr auth)) = (http_proxy addr auth ∷ [], refl, (tt, tt))
  pushed-Adds true xs (ok (https_proxy addr auth)) = (http_proxy addr auth ∷ [], refl, (tt, tt))
  pushed-Adds false xs (ok (http_proxy addr auth)) = (https_proxy addr auth ∷ [], refl, (tt, tt))
  pushed-Adds false xs (ok (https_proxy addr auth)) = (https_proxy addr auth ∷ [], refl, (tt, tt))
  pushed-Adds true xs (ok (socks5_proxy addr auth)) = Adds-refl xs
  pushed-Adds false xs (ok (socks5_proxy addr auth)) = Adds-refl xs
  pushed-Adds b xs pending = Adds-refl xs
  pushed-Adds b xs (err e) = Adds-refl xs
  pushed-Adds b xs panic = Adds-refl xs
  pushed-Adds b xs spin = Adds-refl xs

module _ {Addr : Type 0} (env : Environment Addr) where
  insert_from_env-Adds :
      (is_http : Bool) (key : String) (xs : List (ProxyScheme Addr))
      → Adds xs (insert_from_env env is_http key xs).1
  unfolding insert_from_env
  insert_from_env-Adds is_http key xs = value (env.var key)
    where
      value :
          (v : Option Bytes)
          → Adds xs
              (elim v as (λ w. Bool × List (ProxyScheme Addr)) [
                | none ↦ (false, xs)
                | some val ↦
                    pushed xs
                      (try_from env val >>= λ p. (if is_http then trans_http p else trans_https p))
              ]).1
      value none = Adds-refl xs
      value (some val) = pushed-Adds is_http xs (try_from env val)

  insert_either-Adds :
      (is_http : Bool) (key other_ : String) (xs : List (ProxyScheme Addr))
      → Adds xs (insert_either env is_http key other_ xs)
  unfolding insert_either
  insert_either-Adds is_http key other_ xs =
      let r = insert_from_env env is_http key xs in
      let a = insert_from_env-Adds is_http key xs in
      if-Adds r.0 xs r.1 (insert_from_env env is_http other_ r.1).1 a
        (Adds-trans xs r.1 _ a (insert_from_env-Adds is_http other_ r.1))

  insert_all-Adds : (xs : List (ProxyScheme Addr)) → Adds xs (insert_all env xs)
  unfolding insert_all
  insert_all-Adds xs =
      let r = insert_from_env env true "ALL_PROXY" xs in
      let a = insert_from_env-Adds true "ALL_PROXY" xs in
      let q = if r.0 then insert_from_env env false "ALL_PROXY" r.1 else (false, r.1) in
      let b = second r.0 r.1 in
      let t = insert_from_env env true "all_proxy" q.1 in
      Adds-trans xs r.1 _ a (
        if-Adds q.0 r.1 q.1 _ b (
          Adds-trans r.1 q.1 _ b (
            Adds-trans q.1 t.1 _ (insert_from_env-Adds true "all_proxy" q.1)
              (insert_from_env-Adds false "all_proxy" t.1))))
    where
      second :
          (served : Bool) (ys : List (ProxyScheme Addr))
          → Adds ys (if served then insert_from_env env false "ALL_PROXY" ys else (false, ys)).1
      second true ys = insert_from_env-Adds false "ALL_PROXY" ys
      second false ys = Adds-refl ys

  -- What the environment names after the first variable stands behind it.
  get_from_environment-Adds :
      Adds (insert_either env true "HTTP_PROXY" "http_proxy" []) (get_from_environment env)
  unfolding get_from_environment
  get_from_environment-Adds =
      let xs = insert_either env true "HTTP_PROXY" "http_proxy" [] in
      Adds-trans xs _ _ (insert_either-Adds false "HTTPS_PROXY" "https_proxy" xs)
        (insert_all-Adds _)

  -- No proxy that the environment names is a SOCKS proxy, whatever the variables hold.
  pub get_from_environment-AllTurned : AllTurned (get_from_environment env)
  get_from_environment-AllTurned =
      let a =
        Adds-trans [] _ _ (insert_either-Adds true "HTTP_PROXY" "http_proxy" [])
          get_from_environment-Adds in
      subst AllTurned (sym a.1) a.2

  insert_from_env-valid :
      (val : Bytes) (p : ProxyScheme Addr)
      → env.var "HTTP_PROXY" ≡ some val
      → (try_from env val >>= trans_http) ≡ ok p
      → insert_from_env env true "HTTP_PROXY" [] ≡ (true, p ∷ [])
  unfolding insert_from_env pushed
  insert_from_env-valid val p set valid =
      ap
        (λ v. elim v as (λ w. Bool × List (ProxyScheme Addr)) [
          | none ↦ (false, [])
          | some x ↦ pushed [] (try_from env x >>= trans_http)
        ])
        set
      ∙ ap (pushed []) valid

  -- `HTTP_PROXY` is put in first.
  insert_either-first :
      (val : Bytes) (p : ProxyScheme Addr)
      → env.var "HTTP_PROXY" ≡ some val
      → (try_from env val >>= trans_http) ≡ ok p
      → insert_either env true "HTTP_PROXY" "http_proxy" [] ≡ p ∷ []
  unfolding insert_either
  insert_either-first val p set valid =
      ap (λ r. if r.0 then r.1 else (insert_from_env env true "http_proxy" r.1).1)
        (insert_from_env-valid val p set valid)

module _ {Addr : Type 0} (c : Stream) (connect : Addr → Result c.Io) (digits : ℕ → Bytes)
    (url : Url Addr) where
  -- An answer that is not `Ok(None)`.
  abbrev Serves : Outcome ProtError (Option c.Io) → Type 0
  Serves (ok none) = ⊥
  Serves (ok (some s)) = Unit {0}
  Serves pending = Unit {0}
  Serves (err e) = Unit {0}
  Serves panic = Unit {0}
  Serves spin = Unit {0}

  connected-Serves :
      (r : Outcome ProtError (Unit {0}) × c.Io) → Serves (connected c connect digits r)
  unfolding connected
  connected-Serves (ok u, s) = tt
  connected-Serves (pending, s) = tt
  connected-Serves (err e, s) = tt
  connected-Serves (panic, s) = tt
  connected-Serves (spin, s) = tt

  http_proxy-Serves :
      (addr : Addr) (auth : Option Bytes)
      → Serves (proxy_connect c connect digits url (http_proxy addr auth))
  unfolding proxy_connect through_tunnel opened
  http_proxy-Serves addr auth = on (connect addr)
    where
      plain_or_tunnel :
          (b : Bool) (s : c.Io)
          → Serves (if b then through_tunnel c connect digits url auth s else ok (some s))
      plain_or_tunnel true s = connected-Serves _
      plain_or_tunnel false s = tt

      on :
          (r : Result c.Io)
          → Serves (
              opened c connect digits r >>= λ s.
              (if is_https url.scheme
                then through_tunnel c connect digits url auth s
                else ok (some s)))
      on (good s) = plain_or_tunnel (is_https url.scheme) s
      on (bad e) = tt

  first_proxy-Serves :
      (p : ProxyScheme Addr) (more : List (ProxyScheme Addr))
      → Serves (proxy_connect c connect digits url p)
      → first_proxy c connect digits url (p ∷ more) ≡ first_proxy c connect digits url (p ∷ [])
  unfolding first_proxy
  first_proxy-Serves p more h = served (proxy_connect c connect digits url p) h
    where
      served :
          (r : Outcome ProtError (Option c.Io))
          → Serves r
          → (r >>= λ q. (elim q as (λ w. Outcome ProtError (Option (ProxyScheme Addr × c.Io))) [
            | some s ↦ ok (some (p, s))
            | none ↦ first_proxy c connect digits url more
          ]))
            ≡ (r >>= λ q. (elim q as (λ w. Outcome ProtError (Option (ProxyScheme Addr × c.Io))) [
              | some s ↦ ok (some (p, s))
              | none ↦ ok none
            ]))
      served (ok (some s)) k = refl
      served (ok none) k = absurd k
      served pending k = refl
      served (err e) k = refl
      served panic k = refl
      served spin k = refl

  first_proxy-http :
      (env : Environment Addr) (val : Bytes) (addr : Addr) (auth : Option Bytes)
      → env.var "HTTP_PROXY" ≡ some val
      → (try_from env val >>= trans_http) ≡ ok (http_proxy addr auth)
      → first_proxy c connect digits url (get_from_environment env)
        ≡ first_proxy c connect digits url (http_proxy addr auth ∷ [])
  first_proxy-http env val addr auth set valid =
      let p = http_proxy addr auth in
      let a = get_from_environment-Adds env in
      let start = insert_either-first env val p set valid in
      ap (first_proxy c connect digits url) (a.1 ∙ ap (λ xs. xs ++ a.0) start)
      ∙ first_proxy-Serves p a.0 (http_proxy-Serves addr auth)

  -- Where a client is given no proxies, the host is none of those that need no proxy, and `HTTP_PROXY` names
  -- a proxy, that one alone serves the URL, an https URL too, and an error of it is the answer:
  -- `HTTPS_PROXY` and the other variables for proxies are never tried.
  pub choose_proxy-http :
      (env : Environment Addr) (split : Bytes → List Bytes) (val : Bytes) (addr : Addr)
      (auth : Option Bytes)
      → is_no_proxy env split (domain_or_empty c connect digits url.domain) ≡ false
      → env.var "HTTP_PROXY" ≡ some val
      → (try_from env val >>= trans_http) ≡ ok (http_proxy addr auth)
      → choose_proxy c connect digits env split url []
        ≡ first_proxy c connect digits url (http_proxy addr auth ∷ [])
  unfolding choose_proxy
  choose_proxy-http env split val addr auth proxied set valid =
      rw (proxied, choose_proxy) (first_proxy-http env val addr auth set valid)
