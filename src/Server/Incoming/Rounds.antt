-- ===== src/Server/Incoming/Rounds.antt =====
-- The rounds of `incoming` of src/server.rs: what each leaves of the counts.
use dmeng.Prelude.{
  ℕ, ◌+◌, ◌^◌, ◌≤◌, ◌<◌, ◌≡◌, refl, Bool, true, false, Option, none, some, ◌||◌, leb, arith,
  Bool-cases, inl, inr,
}
use dmeng.Prelude.Poll.{Outcome, pending, ok, err, panic, spin, ◌>>>◌}
use dmeng.Error.{Bytes, ProtError, RequestRef}
use dmeng.Server.Parts.{Parts}
use dmeng.Server.Setup.{Server, flush}
use dmeng.Server.Incoming.{
  Next, again, ended, upgraded, handle_close, handle_error, upgrade, is_last, is_stopped,
  check_stop, wrapping_next,
}
use dmeng.Server.Incoming.Served.{
  Ledger, Held, Held-le, by_error-keeps, handle_close-Held, flush-Held,
}

or_false : (a b : Bool) → a || b ≡ false → a ≡ false
or_false true b e = e
or_false false b e = refl

module _ (x : Parts) (l : Ledger x) where
  -- After a round that is not the last one, and after any round.
  abbrev pub After : ℕ → ℕ → Outcome ProtError (Next x) → Server x → Type 0
  After m c (ok again) t = (q : ℕ) × Held x l q q m c t × (q < m)
  After m c (ok ended) t = (q : ℕ) × Held x l m q m (c + 1) t
  After m c (ok (upgraded r o)) t = (q : ℕ) × Held x l m q m (c + 1) t
  After m c pending t = (q : ℕ) × Held x l m q m (c + 1) t
  After m c (err e) t = (q : ℕ) × Held x l m q m (c + 1) t
  After m c panic t = (q : ℕ) × Held x l m q m (c + 1) t
  After m c spin t = (q : ℕ) × Held x l m q m (c + 1) t

  -- A step that ends the round where it does not answer a value.
  pub then-After :
      {A : Type 0} (q m c : ℕ) (r : Outcome ProtError A × Server x)
      (f : A → Server x → Outcome ProtError (Next x) × Server x)
      → Held x l m q m (c + 1) r.1
      → ((a : A) → r.0 ≡ ok a → After m c (f a r.1).0 (f a r.1).1)
      → After m c (r >>> f).0 (r >>> f).1
  then-After q m c (pending, s) f k g = (q, k)
  then-After q m c (ok a, s) f k g = g a refl
  then-After q m c (err e, s) f k g = (q, k)
  then-After q m c (panic, s) f k g = (q, k)
  then-After q m c (spin, s) f k g = (q, k)

  pub close-After :
      (q m c : ℕ) (s : Server x) (o : Outcome ProtError (Next x))
      → Held x l m q m c s
      → ((t : Server x) → Held x l m q m (c + 1) t → After m c o t)
      → After m c (handle_close x s >>> λ u t. (o, t)).0 (handle_close x s >>> λ u t. (o, t)).1
  close-After q m c s o k g =
      then-After q m c (handle_close x s) (λ u t. (o, t)) (handle_close-Held x l m q m c s k)
        λ u e. g (handle_close x s).1 (handle_close-Held x l m q m c s k)

  is_last-lt : (s : Server x) → is_last x s ≡ false → s.req_num < s.max_req_num
  unfolding is_last
  is_last-lt s e =
      let k : leb s.max_req_num s.req_num ≡ false =
        or_false (leb s.max_req_num s.req_num) (is_stopped x s) e in
      ground arith

  pub check_stop-After :
      (q m c : ℕ) (s : Server x)
      → Held x l q q m c s
      → q ≤ m
      → After m c (check_stop x s).0 (check_stop x s).1
  unfolding check_stop
  check_stop-After q m c s k i = elim (Bool-cases (is_last x s)) [
    | inl e ↦ rw e (
        close-After q m c (flush x s) (ok ended)
          (flush-Held x l m q m c s (Held-le x l q m q m c c s i (omega arith) k)) (λ t h. (q, h)))
    | inr e ↦ rw e (q, k, omega (arith, is_last-lt s e, k.2, k.3))
  ]

  -- After the move to HTTP/2, which counts the request that is served with it, or after an error.
  abbrev pub Moved : ℕ → ℕ → Outcome ProtError (Unit {0}) → Server x → Type 0
  Moved m c (ok u) t = (p : ℕ) × Held x l p p m c t × (p ≤ m)
  Moved m c pending t = (q : ℕ) × Held x l m q m c t
  Moved m c (err e) t = (q : ℕ) × Held x l m q m c t
  Moved m c panic t = (q : ℕ) × Held x l m q m c t
  Moved m c spin t = (q : ℕ) × Held x l m q m c t

  count_one : {A : Type 0} → A → Server x → Outcome ProtError (Unit {0}) × Server x
  count_one v t = (ok tt, record t { req_num = wrapping_next t.req_num })

  counted-Moved :
      {A : Type 0} (q m c : ℕ) (r : Outcome ProtError A × Server x)
      → Held x l (q + 1) q m c r.1
      → q < m
      → m < 2 ^ 64
      → Moved m c (r >>> count_one).0 (r >>> count_one).1
  unfolding count_one
  counted-Moved q m c (ok v, t) (f, i, j, k, a, b) less small =
      (q + 1, (f, i, omega (arith, j, less, small), k, a, b), omega (arith, less))
  counted-Moved q m c (pending, t) k less small =
      (q, Held-le x l (q + 1) m q m c c t (omega (arith, less)) (omega arith) k)
  counted-Moved q m c (err e, t) k less small =
      (q, Held-le x l (q + 1) m q m c c t (omega (arith, less)) (omega arith) k)
  counted-Moved q m c (panic, t) k less small =
      (q, Held-le x l (q + 1) m q m c c t (omega (arith, less)) (omega arith) k)
  counted-Moved q m c (spin, t) k less small =
      (q, Held-le x l (q + 1) m q m c c t (omega (arith, less)) (omega arith) k)

  upgrade-Moved :
      (q m c : ℕ) (o : Option x.H1) (b : Bytes) (r : Option RequestRef) (f : x.Http) (s : Server x)
      → s.callback_http ≡ some f
      → s.req_num ≡ q
      → s.max_req_num ≡ m
      → l.served f ≤ q
      → l.closes f ≤ c
      → q < m
      → m < 2 ^ 64
      → Moved m c (upgrade x o b r f s).0 (upgrade x o b r f s).1
  unfolding upgrade count_one
  upgrade-Moved q m c none b r f s i j k u v less small =
      (q, (f, i, j, k, omega (arith, u, less), v))
  upgrade-Moved q m c (some h) b none f s i j k u v less small =
      (q, (f, i, j, k, u, v), omega (arith, less))
  upgrade-Moved q m c (some h) b (some r) f s i j k u v less small =
      counted-Moved q m c _
        (
          _,
          refl,
          j,
          k,
          omega (arith, l.h2_served s.addr r f s.middles (x.into_h2 b h), u),
          omega (arith, l.h2_closes s.addr r f s.middles (x.into_h2 b h), v),
        )
        less small

  pub handle_error-Moved :
      (q m c : ℕ) (e : ProtError) (s : Server x)
      → Held x l q q m c s
      → q < m
      → m < 2 ^ 64
      → Moved m c (handle_error x e s).0 (handle_error x e s).1
  unfolding handle_error
  handle_error-Moved q m c e s (f, i, j, k, a, b) less small =
      let same : Held x l m q m c s = (f, i, j, k, omega (arith, a, less), b) in
      rw (i, handle_error)
        (by_error-keeps (λ (r : Outcome ProtError (Unit {0}) × Server x). Moved m c r.0 r.1) _ _ _ e
          (λ g r. upgrade-Moved q m c s.http1 g r f s i j k a b less small) (λ r. (q, same))
          (q, same))
