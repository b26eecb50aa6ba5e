-- ===== src/Server/Incoming/Served.antt =====
-- How many requests `incoming` of src/server.rs has served, and how often it closes its handler.
use dmeng.Prelude.{ℕ, ◌+◌, ◌≤◌, ◌≡◌, refl, Option, none, some, List, Bool, arith}
use dmeng.Prelude.Poll.{Outcome}
use dmeng.Error.{Bytes, ProtError, RequestRef, server_upgrade_http2, server_upgrade_ws}
use dmeng.Server.Parts.{Parts}
use dmeng.Server.Setup.{Server, by_connection, flush}
use dmeng.Server.Incoming.{by_error, next_request, handle_request, handle_close}

-- What holds for each branch holds for the choice of the connection.
pub by_connection-keeps {ℓ} :
    {A B C : Type 0} (P : C → Type ℓ) (f : A → C) (g : B → C) (c : C) (o : Option A) (p : Option B)
    → ((h : A) → P (f h))
    → ((h : B) → P (g h))
    → P c
    → P (by_connection f g c o p)
by_connection-keeps P f g c (some h) p i j k = i h
by_connection-keeps P f g c none (some h) i j k = j h
by_connection-keeps P f g c none none i j k = k

pub by_error-keeps {ℓ} :
    {C : Type 0} (P : C → Type ℓ) (f : Bytes → Option RequestRef → C) (g : RequestRef → C) (c : C)
    (e : ProtError)
    → ((b : Bytes) (r : Option RequestRef) → P (f b r))
    → ((r : RequestRef) → P (g r))
    → P c
    → P (by_error f g c e)
by_error-keeps P f g c e i j k = elim e as (λ e'. P (by_error f g c e')) [
  | server_upgrade_http2 b r ↦ i b r
  | server_upgrade_ws r ↦ j r
  | _ ↦ k
]

-- What is counted of a handler: the requests that it was given, and the calls of `close_connect`.
pub record Ledger (x : Parts) : Type 0 where
  pub served : x.Http → ℕ
  pub closes : x.Http → ℕ
  pub h1_served :
      (a : Option x.Addr) (r : ℕ) (f : x.Http) (ms : List x.Middle) (h : x.H1)
      → served (x.h1_handle_request a r f ms h).1 ≤ served f + 1
  pub h1_closes :
      (a : Option x.Addr) (r : ℕ) (f : x.Http) (ms : List x.Middle) (h : x.H1)
      → closes (x.h1_handle_request a r f ms h).1 ≡ closes f
  pub h2_served :
      (a : Option x.Addr) (r : ℕ) (f : x.Http) (ms : List x.Middle) (h : x.H2)
      → served (x.h2_handle_request a r f ms h).1 ≤ served f + 1
  pub h2_closes :
      (a : Option x.Addr) (r : ℕ) (f : x.Http) (ms : List x.Middle) (h : x.H2)
      → closes (x.h2_handle_request a r f ms h).1 ≡ closes f
  pub close_served : (f : x.Http) → served (x.close_connect f) ≡ served f
  pub close_closes : (f : x.Http) → closes (x.close_connect f) ≡ closes f + 1

module _ (x : Parts) (l : Ledger x) where
  -- A server with `n` requests served at most, `q` counted, and its handler closed `c` times at most.
  abbrev pub Held : ℕ → ℕ → ℕ → ℕ → Server x → Type 0
  Held n q m c s =
      (f : x.Http) × (s.callback_http ≡ some f)
      × (s.req_num ≡ q)
      × (s.max_req_num ≡ m)
      × (l.served f ≤ n)
      × (l.closes f ≤ c)

  pub next_request-Held :
      (n q m c : ℕ) (s : Server x) → Held n q m c s → Held n q m c (next_request x s).1
  unfolding next_request
  next_request-Held n q m c s k =
      by_connection-keeps (λ (t : Outcome ProtError (Option ℕ) × Server x). Held n q m c t.1) _ _ _
        s.http1 s.http2 (λ h. k) (λ h. k) k

  pub handle_close-Held :
      (n q m c : ℕ) (s : Server x) → Held n q m c s → Held n q m (c + 1) (handle_close x s).1
  unfolding handle_close
  handle_close-Held n q m c s (f, e, k, j, a, b) =
      rw (e, handle_close)
        (
          x.close_connect f,
          refl,
          k,
          j,
          omega (arith, l.close_served f, a),
          omega (arith, l.close_closes f, b),
        )

  pub handle_request-Held :
      (n q m c : ℕ) (r : ℕ) (s : Server x)
      → Held n q m c s
      → Held (n + 1) q m c (handle_request x r s).1
  unfolding handle_request
  handle_request-Held n q m c r s (f, e, k, j, a, b) =
      rw (e, handle_request)
        (by_connection-keeps
          (λ (t : Outcome ProtError (Option Bool) × Server x). Held (n + 1) q m c t.1) _ _ _ s.http1
          s.http2
          (λ h. (
            _,
            refl,
            k,
            j,
            omega (arith, l.h1_served s.addr r f s.middles h, a),
            omega (arith, l.h1_closes s.addr r f s.middles h, b),
          ))
          (λ h. (
            _,
            refl,
            k,
            j,
            omega (arith, l.h2_served s.addr r f s.middles h, a),
            omega (arith, l.h2_closes s.addr r f s.middles h, b),
          ))
          (f, e, k, j, omega (arith, a), b))

  pub flush-Held : (n q m c : ℕ) (s : Server x) → Held n q m c s → Held n q m c (flush x s)
  unfolding flush
  flush-Held n q m c s k =
      by_connection-keeps (Held n q m c) _ _ _ s.http1 s.http2 (λ h. k) (λ h. k) k

  pub Held-le :
      (n n' q m c c' : ℕ) (s : Server x) → n ≤ n' → c ≤ c' → Held n q m c s → Held n' q m c' s
  Held-le n n' q m c c' s i j (f, e, k, h, a, b) =
      (f, e, k, h, omega (arith, i, a), omega (arith, j, b))
