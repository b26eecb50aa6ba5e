-- ===== src/Proxy/Tunnel/Answer.antt =====
-- When a tunnel of src/proxy.rs is taken to be up, and that the wait for it ends.
use Prim.Native.String.{String}
use mathlib.Core.Path.{subst}
use dmeng.Prelude.{
  ℕ, zero, suc, ◌+◌, ◌-◌, ◌≤◌, ◌<◌, ◌≡◌, refl, sym, ap, ◌∙◌, Bool, true, false, Option, [], ◌∷◌,
  ◌++◌, append_assoc, append-nil, length, length-append, ◌==◌, arith, if◌then◌else◌,
}
use dmeng.Prelude.Poll.{Outcome, pending, ok, err, panic, spin, ◌>>>◌}
use dmeng.Http2.Codec.{is_empty}
use dmeng.Transport.{Result, good, bad}
use dmeng.Error.{Bytes, ProtError, extension}
use dmeng.Proxy.Platform.{Stream, StreamLaws, awaited}
use dmeng.Proxy.Tunnel.{
  Verdict, done, more, fails, verdict, is_established, ends_with, starts_with, crlf, buffer_len,
  tunnel_loop, tunnel, codes, request,
}

-- An answer that the code accepts: a status of 200 first, an empty line last, and no more than the buffer.
abbrev pub IsUp : Bytes → Type 0
IsUp a = (is_established a ≡ true) × (ends_with (crlf ++ crlf) a ≡ true) × (length a ≤ buffer_len)

-- The four tests of `verdict`, and what they say.
judge : Bool → Bool → Bool → Bool → Verdict
judge established ends full refused =
    if established
    then (if ends then done else if full then fails "proxy headers too long for tunnel" else more)
    else if refused
    then fails "proxy authentication required"
    else fails "unsuccessful tunnel"

judge-done : (a b c d : Bool) → judge a b c d ≡ done → (a ≡ true) × (b ≡ true)
unfolding judge
judge-done true true c d h = (refl, refl)
judge-done true false true d h = absurd (cc)
judge-done true false false d h = absurd (cc)
judge-done false b c true h = absurd (cc)
judge-done false b c false h = absurd (cc)

judge-more : (a b c d : Bool) → judge a b c d ≡ more → c ≡ false
unfolding judge
judge-more true true c d h = absurd (cc)
judge-more true false true d h = absurd (cc)
judge-more true false false d h = refl
judge-more false b c true h = absurd (cc)
judge-more false b c false h = absurd (cc)

verdict_lem :
    (a : Bytes)
    → verdict a
      ≡ judge
          (is_established a)
          (ends_with (crlf ++ crlf) a)
          (length a == buffer_len)
          (starts_with (codes "HTTP/1.1 407") a)
unfolding verdict judge
verdict_lem a = refl

starts_with-short : (p a : Bytes) → length a < length p → starts_with p a ≡ false
starts_with-short [] a h = absurd (omega arith)
starts_with-short (x ∷ p) [] h = refl
starts_with-short (x ∷ p) (y ∷ a) h = ground (arith, starts_with-short p a)

-- An outcome of the loop: it ends, and if the tunnel is up, what was received so far and what was read in
-- the loop are together such an answer.
module _ (c : Stream) (laws : StreamLaws c) where
  open laws use {incoming, read_good}

  abbrev pub Settled : Bytes → c.Io → Outcome ProtError (Unit {0}) × c.Io → Type 0
  Settled recvd s (ok u, t) = (r : Bytes) × (incoming s ≡ r ++ incoming t) × IsUp (recvd ++ r)
  Settled recvd s (pending, t) = ⊥
  Settled recvd s (err e, t) = Unit {0}
  Settled recvd s (panic, t) = ⊥
  Settled recvd s (spin, t) = ⊥

  -- What the rest of the loop reads stands behind what this round read.
  Settled-later :
      (recvd b : Bytes) (s t : c.Io) (r : Outcome ProtError (Unit {0}) × c.Io)
      → incoming s ≡ b ++ incoming t
      → Settled (recvd ++ b) t r
      → Settled recvd s r
  Settled-later recvd b s t (ok u, v) e (r, i, up) = (
    b ++ r,
    e ∙ ap (λ x. b ++ x) i ∙ sym (append_assoc b r (incoming v)),
    subst IsUp (append_assoc recvd b r) up,
  )
  Settled-later recvd b s t (pending, v) e h = h
  Settled-later recvd b s t (err x, v) e h = tt
  Settled-later recvd b s t (panic, v) e h = h
  Settled-later recvd b s t (spin, v) e h = h

  -- After the bytes `a` have been received.
  decide-Settled :
      (a : Bytes) (t : c.Io) (again : Bytes → c.Io → Outcome ProtError (Unit {0}) × c.Io)
      (v : Verdict)
      → verdict a ≡ v
      → length a ≤ buffer_len
      → (length a < buffer_len → Settled a t (again a t))
      → Settled a t
          (elim v [ done ↦ (ok tt, t) | more ↦ again a t | fails e ↦ (err (extension e), t) ])
  decide-Settled a t again done e fits k =
      let up = judge-done _ _ _ _ (sym (verdict_lem a) ∙ e) in
      ([], refl, subst IsUp (sym (append-nil a)) (up.0, up.1, fits))
  decide-Settled a t again more e fits k =
      k (grind (arith, judge-more _ _ _ _ (sym (verdict_lem a) ∙ e)))
  decide-Settled a t again (fails x) e fits k = tt

  -- A round of the loop, where `again` are those that follow.
  round-Settled :
      (recvd : Bytes) (s : c.Io) (again : Bytes → c.Io → Outcome ProtError (Unit {0}) × c.Io)
      (r : Result Bytes × c.Io)
      → c.read (buffer_len - length recvd) s ≡ r
      → length recvd < buffer_len
      → ((a : Bytes) (t : c.Io)
          → length recvd < length a
          → length a < buffer_len
          → Settled a t (again a t))
      → Settled recvd s (
          awaited r >>> λ b t. (elim (is_empty b) [
            | true ↦ (err (extension "eof error"), t)
            | false ↦ elim (verdict (recvd ++ b)) [
              | done ↦ (ok tt, t)
              | more ↦ again (recvd ++ b) t
              | fails e ↦ (err (extension e), t)
            ]
          ]))
  round-Settled recvd s again (bad x, t) e room k = tt
  round-Settled recvd s again (good [], t) e room k = tt
  round-Settled recvd s again (good (x ∷ b), t) e room k =
      let g = read_good (buffer_len - length recvd) (x ∷ b) s t e in
      let l = length-append recvd (x ∷ b) in
      Settled-later recvd (x ∷ b) s t _ g.1 (
        decide-Settled (recvd ++ x ∷ b) t again (verdict (recvd ++ x ∷ b)) refl (omega arith)
          (λ short. k (recvd ++ x ∷ b) t (omega arith) short))

  tunnel_loop-Settled :
      (fuel : ℕ) (recvd : Bytes) (s : c.Io)
      → length recvd < buffer_len
      → buffer_len < fuel + length recvd
      → Settled recvd s (tunnel_loop c fuel recvd s)
  unfolding tunnel_loop
  tunnel_loop-Settled zero recvd s room enough = absurd (omega arith)
  tunnel_loop-Settled (suc fuel) recvd s room enough =
      round-Settled recvd s (tunnel_loop c fuel) (c.read (buffer_len - length recvd) s) refl room
        λ a t longer short. tunnel_loop-Settled fuel a t short (omega arith)

  -- The wait for the proxy's answer always ends. Where the tunnel is up, all that was read of the
  -- connection starts with `HTTP/1.1 200` or `HTTP/1.0 200`, ends with an empty line, and has at most
  -- 8192 bytes.
  pub tunnel-Settled :
      (host port : Bytes) (user_agent auth : Option Bytes) (s : c.Io)
      → Settled [] s (tunnel c host port user_agent auth s)
  unfolding tunnel
  tunnel-Settled host port user_agent auth s =
      written (c.write_all (request host port user_agent auth) s) refl
    where
      written :
          (r : Result (Unit {0}) × c.Io)
          → c.write_all (request host port user_agent auth) s ≡ r
          → Settled [] s (awaited r >>> λ u t. tunnel_loop c (suc buffer_len) [] t)
      written (bad x, t) e = tt
      written (good u, t) e =
          Settled-later [] [] s t _ (sym (laws.write_all_good _ s t e).1)
            (tunnel_loop-Settled (suc buffer_len) [] t (omega arith) (omega arith))

judge-refused :
    (a b c d : Bool) → a ≡ false → d ≡ false → judge a b c d ≡ fails "unsuccessful tunnel"
unfolding judge
judge-refused a b c d e f = rw (e, f)

verdict-short : (a : Bytes) → length a < 12 → verdict a ≡ fails "unsuccessful tunnel"
verdict-short a h =
    verdict_lem a
    ∙ judge-refused _ _ _ _
        (rw (
          starts_with-short (codes "HTTP/1.1 200") a h,
          starts_with-short (codes "HTTP/1.0 200") a h,
        ))
        (starts_with-short (codes "HTTP/1.1 407") a h)

tunnel_loop-fails :
    (c : Stream) (fuel : ℕ) (s t : c.Io) (b : Bytes) (x : ℕ) (e : String)
    → c.read buffer_len s ≡ (good (x ∷ b), t)
    → verdict (x ∷ b) ≡ fails e
    → tunnel_loop c (suc fuel) [] s ≡ (err (extension e), t)
unfolding tunnel_loop
tunnel_loop-fails c fuel s t b x e r v =
    ap
      (λ p. awaited p >>> λ b q. (elim (is_empty b) [
        | true ↦ (err (extension "eof error"), q)
        | false ↦ elim (verdict b) [
          | done ↦ (ok tt, q)
          | more ↦ tunnel_loop c fuel b q
          | fails e ↦ (err (extension e), q)
        ]
      ]))
      r
    ∙ ap
        (λ w. elim w as (λ _. Outcome ProtError (Unit {0}) × c.Io) [
          | done ↦ (ok tt, t)
          | more ↦ tunnel_loop c fuel (x ∷ b) t
          | fails e ↦ (err (extension e), t)
        ])
        v

-- A first read of fewer than twelve bytes fails the tunnel, whatever these bytes are and whatever follows
-- them: an answer that arrives in such pieces is refused although it grants the tunnel.
pub tunnel-short_read :
    (c : Stream) (host port : Bytes) (user_agent auth : Option Bytes) (s t v : c.Io) (b : Bytes)
    → c.write_all (request host port user_agent auth) s ≡ (good tt, t)
    → c.read buffer_len t ≡ (good b, v)
    → 0 < length b
    → length b < 12
    → tunnel c host port user_agent auth s ≡ (err (extension "unsuccessful tunnel"), v)
unfolding tunnel
tunnel-short_read c host port user_agent auth s t v [] w r some_ short = absurd (omega arith)
tunnel-short_read c host port user_agent auth s t v (x ∷ b) w r some_ short =
    ap (λ q. awaited q >>> λ u i. tunnel_loop c (suc buffer_len) [] i) w
    ∙ tunnel_loop-fails c buffer_len t v b x "unsuccessful tunnel" r (verdict-short (x ∷ b) short)
