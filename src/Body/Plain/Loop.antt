-- ===== src/Body/Plain/Loop.antt =====
-- The reading loop of src/body.rs on a plain chunked body: it ends, and no byte is lost in it.
use mathlib.Core.Path.{subst}
use dmeng.Prelude.{
  ℕ, zero, suc, ◌<◌, ◌≡◌, Bool, true, false, Option, some, ◌++◌, length, if◌then◌else◌, arith, refl,
  sym, ap, ◌∙◌, Bool-cases, inl, inr,
}
use dmeng.Layer.RateLimit.{RateLimitLayer}
use dmeng.Prelude.Poll.{>>>_ok, Outcome, ok, ◌>>>◌}
use dmeng.Prelude.{if_true, if_false}
use dmeng.Body.Platform.{Platform, SemaphoreLaws, ChannelLaws}
use dmeng.Body.Receiver
use dmeng.Body.State.{Body, copy_now, check_over_limit}
use dmeng.Body.Process.{
  inner_poll_sem_ready, Times, after_message, received, read_round, read_loop, inner_poll_read,
  rate_call,
}
use dmeng.Body.Plain.{
  IsPlain, Reads, Reads-refl, Reads-trans, check_over_limit-Reads, Reads-same, IsPlain-move,
  Reads-append, messages, sem_ready-plain, rate_ready-shape, rate_call-shape, Taken, waits, ends,
  takes, poll_recv-Taken, cache_buffer-plain,
}

module _ (p : Platform) (laws : ChannelLaws p) (sem_laws : SemaphoreLaws p) (fuel : ℕ)
    (times : ℕ → Times) where
  abbrev Done : (b : Body p) → Outcome ℕ Bool × Body p → Type 0
  Done b r = ((ch : Bool) × (r.0 ≡ ok ch)) × Reads p laws sem_laws b r.1

  received-plain :
      (n : ℕ) (has_change : Bool) (b : Body p) (l : Option RateLimitLayer)
      → IsPlain p laws sem_laws b
      → ((c : Body p)
          → IsPlain p laws sem_laws c
          → length (messages p laws sem_laws c.receiver) < n
          → Done c (read_loop p fuel times n true c))
      → length (messages p laws sem_laws b.receiver) < suc n
      → let a = Receiver.poll_recv p b.receiver in
        Taken p laws sem_laws b.receiver a
        → Done b (
            received p fuel times
              (read_loop p fuel times n true)
              has_change
              (times n)
              a.0
              (record b { rate_limit = l; receiver = a.1 }))
  unfolding received after_message copy_now
  received-plain n has_change b l plain next enough (waits e no_file same) =
      rw e (
        (has_change, refl),
        Reads-same p laws sem_laws fuel times b l _ b.is_end plain no_file same,
      )
  received-plain n has_change b l plain next enough (ends e no_file same) =
      rw e ((true, refl), Reads-same p laws sem_laws fuel times b l _ true plain no_file same)
  received-plain n has_change b l plain next enough (takes m e no_file took) =
      let r = (Receiver.poll_recv p b.receiver).1 in
      let d = record b { rate_limit = l; receiver = r; is_end = m.0 } in
      let d' = record d { read_buf = some (copy_now p b ++ m.1) } in
      let (l', called) = rate_call-shape p laws sem_laws fuel times (times n) (length m.1) d' in
      let c = record d' { rate_limit = l' } in
      let moved = Reads-append p laws sem_laws fuel times b l' r m plain no_file took in
      let plain_d = IsPlain-move p laws sem_laws fuel times b l r m.0 plain no_file in
      let cached = cache_buffer-plain p laws sem_laws fuel times m.1 d plain_d in
      let next_round = read_loop p fuel times n true in
      let rc = rate_call p fuel times (times n) (length m.1) d' in
      let step = ap (λ o. o >>> after_message p fuel times next_round (times n) m) cached in
      let pick : Bool → Outcome ℕ Bool × Body p =
        λ f. elim f [ true ↦ (ok true, rc) | false ↦ next_round rc ] in
      rw e (
        subst (Done b) (sym step) (elim (Bool-cases m.0) [
          | inl last ↦
              subst (Done b) (sym (ap pick last ∙ ap (λ x. (ok true, x)) called))
                ((true, refl), moved)
          | inr more ↦
              let taken = ap length took in
              let fewer : length (messages p laws sem_laws r) < n = omega (arith, taken, enough) in
              let (end, rest) = next c moved.plain fewer in
              subst (Done b) (sym (ap pick more ∙ ap next_round called))
                (end, Reads-trans p laws sem_laws b c _ moved rest)
        ]))

  read_loop-plain :
      (n : ℕ) (has_change : Bool) (b : Body p)
      → IsPlain p laws sem_laws b
      → length (messages p laws sem_laws b.receiver) < n
      → Done b (read_loop p fuel times n has_change b)
  unfolding read_loop read_round
  read_loop-plain zero has_change b plain enough = absurd (omega arith)
  read_loop-plain (suc n) has_change b plain enough =
      let (q, l, eq) = rate_ready-shape p laws sem_laws fuel times (times n) b in
      let next = read_loop p fuel times n true in
      let h = ap (λ r. read_round p fuel times next has_change (times n) r.0 r.1) eq in
      subst (Done b) (sym h) (elim (Bool-cases q) [
        | inl go ↦ rw go (
            received-plain n has_change b l plain (λ c plain_c. read_loop-plain n true c plain_c)
              enough (poll_recv-Taken p laws sem_laws b.receiver plain.no_file))
        | inr stop ↦ rw stop (
          (has_change, refl),
          Reads-same p laws sem_laws fuel times b l b.receiver b.is_end plain plain.no_file refl,
        )
      ])

  if_check :
      (ch : Bool) (d : Body p)
      → IsPlain p laws sem_laws d
      → Reads p laws sem_laws d (if ch then check_over_limit p d else d)
  if_check true d plain = check_over_limit-Reads p laws sem_laws d plain
  if_check false d plain = Reads-refl p laws sem_laws d plain

  -- A poll of the source of a plain body with fuel for the messages that wait is ready, and loses nothing.
  pub inner_poll_read-plain :
      (b : Body p)
      → IsPlain p laws sem_laws b
      → length (messages p laws sem_laws b.receiver) < fuel
      → Done b (inner_poll_read p fuel times b)
  unfolding inner_poll_read
  inner_poll_read-plain b plain enough = elim (Bool-cases b.is_end) [
    | inl e ↦
        subst (Done b) (sym (if_true b.is_end _ _ e))
          ((false, refl), Reads-refl p laws sem_laws b plain)
    | inr e ↦
        let (ready, waited) = sem_ready-plain p laws sem_laws fuel times b plain in
        let c = (inner_poll_sem_ready p fuel times b).1 in
        let ((ch, done), read) =
          read_loop-plain fuel false c waited.plain (omega (arith, waited.fewer, enough)) in
        let d = (read_loop p fuel times fuel false c).1 in
        let checked = if_check ch d read.plain in
        let h1 =
          >>>_ok (inner_poll_sem_ready p fuel times b)
            (λ u x. read_loop p fuel times fuel false x >>> λ hc y.
              (ok hc, if hc then check_over_limit p y else y))
            tt ready in
        let h2 =
          >>>_ok (read_loop p fuel times fuel false c)
            (λ hc y. (ok hc, if hc then check_over_limit p y else y)) ch done in
        subst (Done b) (sym (if_false b.is_end _ _ e ∙ h1 ∙ h2)) (
          (ch, refl),
          Reads-trans p laws sem_laws b c _ waited (Reads-trans p laws sem_laws c d _ read checked),
        )
  ]
