-- ===== src/Body/Output/Steps.antt =====
-- The steps of a poll of a plain chunked body of src/body.rs.
use mathlib.Core.Path.{subst}
use dmeng.Prelude.{
  ℕ, ◌≤◌, ◌<◌, ◌≡◌, Bool, true, false, Option, none, some, List, [], ◌∷◌, ◌++◌, append-nil,
  append_assoc, length, ltb, if◌then◌else◌, if_true, if_false, arith, refl, sym, ap, ◌∙◌,
  Bool-cases, Option-cases, inl, inr,
}
use dmeng.Prelude.Poll.{Outcome, ok, ◌>>>◌, past}
use dmeng.Error.{Bytes}
use dmeng.Body.Platform.{Platform, SemaphoreLaws, ChannelLaws}
use dmeng.Body.State.{Body, copy_now, notify_some_read}
use dmeng.Body.Process.{
  Times, process_data, take_origin, encode_read, finish_encode, inner_poll_read,
}
use dmeng.Body.Plain.{IsPlain, Reads, messages, waiting, notify_some_read-Reads}
use dmeng.Body.Plain.Loop.{inner_poll_read-plain}
use dmeng.SendStream.Fixed.{concat}
use dmeng.SendStream.Chunked.{encoded, NonEmpty}
use dmeng.Body.Output.{
  Outputs, Gathered, Gathered-Reads, take_origin-plain, encode-plain, to_come, last_chunk,
}

module _ (p : Platform) (laws : ChannelLaws p) (sem_laws : SemaphoreLaws p) (fuel : ℕ)
    (times : ℕ → Times) where
  -- What is gathered was encoded, as one chunk or none.
  record Encoded (b e : Body p) : Type 0 where
    pieces : List Bytes
    full : NonEmpty pieces
    coded : e.cache_body_data ≡ b.cache_body_data ++ encoded p.helper pieces
    no_origin : e.origin_buf ≡ none
    same :
        concat pieces ++ (copy_now p e ++ waiting p laws sem_laws e.receiver)
        ≡ to_come p laws sem_laws b
    plain : IsPlain p laws sem_laws e
    fewer :
        length (messages p laws sem_laws e.receiver) ≤ length (messages p laws sem_laws b.receiver)

  framed : Bytes → List Bytes
  framed [] = []
  framed (x ∷ xs) = (x ∷ xs) ∷ []

  concat-framed : (xs : Bytes) → concat (framed xs) ≡ xs
  unfolding framed
  concat-framed [] = refl
  concat-framed (x ∷ xs) = append-nil (x ∷ xs)

  framed-NonEmpty : (xs : Bytes) → NonEmpty (framed xs)
  unfolding framed
  framed-NonEmpty [] = tt
  framed-NonEmpty (x ∷ xs) = (omega arith, tt)

  -- The body after `encode_read`, but for the permit.
  abbrev emptied : Bytes → Body p → Body p
  emptied xs d = record d {
    read_buf = some [];
    cache_body_data = d.cache_body_data ++ encoded p.helper (framed xs);
  }

  emptied-Encoded :
      (b d : Body p) (xs : Bytes)
      → Gathered p laws sem_laws b d
      → d.read_buf ≡ some xs
      → Encoded b (emptied xs d)
  unfolding copy_now
  emptied-Encoded b d xs g e = record {
    pieces = framed xs;
    full = framed-NonEmpty xs;
    coded = ap (λ c. c ++ encoded p.helper (framed xs)) g.same_cache;
    no_origin = g.no_origin;
    same = ap (λ x. x ++ waiting p laws sem_laws d.receiver) (concat-framed xs ∙ rw e) ∙ g.same;
    plain = record {
      no_origin_method = g.plain.no_origin_method;
      no_now_method = g.plain.no_now_method;
      chunked = g.plain.chunked;
      no_file = g.plain.no_file;
      free = g.plain.free;
    };
    fewer = g.fewer;
  }

  Encoded-Reads : (b d e : Body p) → Encoded b d → Reads p laws sem_laws d e → Encoded b e
  Encoded-Reads b d e g r = record {
    pieces = g.pieces;
    full = g.full;
    coded = r.same_cache ∙ g.coded;
    no_origin = r.same_origin ∙ g.no_origin;
    same = ap (λ x. concat g.pieces ++ x) r.same_bytes ∙ g.same;
    plain = r.plain;
    fewer = omega (arith, r.fewer, g.fewer);
  }

  unread-Encoded : (b d : Body p) → Gathered p laws sem_laws b d → Encoded b d
  unread-Encoded b d g = record {
    pieces = [];
    full = tt;
    coded = g.same_cache ∙ sym (append-nil b.cache_body_data);
    no_origin = g.no_origin;
    same = g.same;
    plain = g.plain;
    fewer = g.fewer;
  }

  IsPlain-unread :
      (d : Body p) (xs : Option Bytes)
      → IsPlain p laws sem_laws d
      → IsPlain p laws sem_laws (record d { read_buf = xs })
  IsPlain-unread d xs plain = record {
    no_origin_method = plain.no_origin_method;
    no_now_method = plain.no_now_method;
    chunked = plain.chunked;
    no_file = plain.no_file;
    free = plain.free;
  }

  encode_read-some :
      (xs : Bytes) (d : Body p)
      → IsPlain p laws sem_laws d
      → d.read_buf ≡ some xs
      → encode_read p fuel times d ≡ (ok tt, notify_some_read p (emptied xs d))
  unfolding encode_read framed
  encode_read-some [] d plain e = rw (e, append-nil d.cache_body_data)
  encode_read-some (x ∷ xs) d plain e =
      let unread = record d { read_buf = none } in
      let coded =
        encode-plain p laws sem_laws fuel times (x ∷ xs) unread (IsPlain-unread d none plain) in
      let long : ltb 0 (length (x ∷ xs)) ≡ true = ground arith in
      rw (e, append-nil (p.helper.encode_chunk_data (x ∷ xs)), long) (rw coded)

  encode_read-Encoded :
      (b d : Body p)
      → Gathered p laws sem_laws b d
      → let r = encode_read p fuel times d in (r.0 ≡ ok tt) × Encoded b r.1
  unfolding encode_read
  encode_read-Encoded b d g = elim (Option-cases d.read_buf) [
    | inl e ↦
        let h : encode_read p fuel times d ≡ (ok tt, d) = rw e in
        subst (λ r. (r.0 ≡ ok tt) × Encoded b r.1) (sym h) (refl, unread-Encoded b d g)
    | inr (xs, e) ↦
        let c = emptied xs d in
        let coded = emptied-Encoded b d xs g e in
        let h : encode_read p fuel times d ≡ (ok tt, notify_some_read p c) =
          encode_read-some xs d g.plain e in
        subst (λ r. (r.0 ≡ ok tt) × Encoded b r.1) (sym h)
          (refl, Encoded-Reads b c _ coded (notify_some_read-Reads p laws sem_laws c coded.plain))
  ]

  -- The end of `process_data`: the last chunk, and the flag.
  abbrev pub Ended : (b : Body p) → Outcome ℕ ℕ × Body p → Type 0
  Ended b r =
      (r.0 ≡ ok 0)
      × (r.1.origin_buf ≡ none)
      × (o : Bytes) × (r.1.cache_body_data ≡ b.cache_body_data ++ o)
      × Outputs p laws sem_laws b r.1 o

  abbrev finish : Outcome ℕ (Unit {0}) × Body p → Outcome ℕ ℕ × Body p
  finish r = r >>> λ u f. (ok 0, record f { is_process_end = f.is_end })

  abbrev closed : Body p → Body p
  closed e = record e {
    cache_body_data = e.cache_body_data ++ last_chunk p laws sem_laws e.is_end;
    is_process_end = e.is_end;
  }

  closed-Ended : (b e : Body p) → Encoded b e → Ended b (ok 0, closed e)
  unfolding copy_now
  closed-Ended b e g =
      let from_origin : Option Bytes → Bytes = λ x.
        concat g.pieces
        ++ (copy_now p e
            ++ ((elim x [ none ↦ [] | some y ↦ y ]) ++ waiting p laws sem_laws e.receiver)) in
      (
        refl,
        g.no_origin,
        encoded p.helper g.pieces ++ last_chunk p laws sem_laws e.is_end,
        ap (λ c. c ++ last_chunk p laws sem_laws e.is_end) g.coded
            ∙ append_assoc b.cache_body_data (encoded p.helper g.pieces)
                (last_chunk p laws sem_laws e.is_end),
        record {
          pieces = g.pieces;
          full = g.full;
          coded = refl;
          same = ap from_origin g.no_origin ∙ g.same;
          plain = record {
            no_origin_method = g.plain.no_origin_method;
            no_now_method = g.plain.no_now_method;
            chunked = g.plain.chunked;
            no_file = g.plain.no_file;
            free = g.plain.free;
          };
          fewer = g.fewer;
        },
      )

  finish-closed :
      (e : Body p)
      → IsPlain p laws sem_laws e
      → finish (finish_encode p fuel times e) ≡ (ok 0, closed e)
  unfolding finish_encode
  finish-closed e plain = elim (Bool-cases e.is_end) [
    | inl ended ↦
        ap finish (if_true e.is_end _ _ ended ∙ encode-plain p laws sem_laws fuel times [] e plain)
        ∙ ap
            (λ c. (
              ok 0,
              record e { cache_body_data = e.cache_body_data ++ c; is_process_end = e.is_end },
            ))
            (sym (if_true e.is_end _ _ ended))
    | inr going ↦
        ap finish (if_false e.is_end _ _ going)
        ∙ ap (λ c. (ok 0, record e { cache_body_data = c; is_process_end = e.is_end }))
            (sym (append-nil e.cache_body_data)
              ∙ ap (λ c. e.cache_body_data ++ c) (sym (if_false e.is_end _ _ going)))
  ]

  maybe_poll :
      (has_cx : Bool) (b c : Body p)
      → Gathered p laws sem_laws b c
      → length (messages p laws sem_laws b.receiver) < fuel
      → let r = if has_cx then inner_poll_read p fuel times c else (ok false, c) in
        ((ch : Bool) × (r.0 ≡ ok ch)) × Gathered p laws sem_laws b r.1
  maybe_poll false b c g enough = ((false, refl), g)
  maybe_poll true b c g enough =
      let (done, read) =
        inner_poll_read-plain p laws sem_laws fuel times c g.plain
          (omega (arith, g.fewer, enough)) in
      (done, Gathered-Reads p laws sem_laws b c _ g read)

  -- One step of a plain body with fuel for the messages that wait is ready, and puts out what it took.
  pub process_data-Ended :
      (has_cx : Bool) (b : Body p)
      → IsPlain p laws sem_laws b
      → b.is_process_end ≡ false
      → length (messages p laws sem_laws b.receiver) < fuel
      → Ended b (process_data p fuel times has_cx b)
  unfolding process_data
  process_data-Ended has_cx b plain going enough =
      let ((n, taken), gathered) = take_origin-plain p laws sem_laws fuel times b plain in
      let c = (take_origin p fuel times b).1 in
      subst (Ended b) (sym (if_false b.is_process_end _ _ going)) (
        past (Ended b) _ _ n taken (
          let (read, gathered') = maybe_poll has_cx b c gathered enough in
          let (encoded_ok, coded) = encode_read-Encoded b _ gathered' in
          past (Ended b) _ _ read.0 read.1 (
            past (Ended b) _ _ tt encoded_ok
              (subst (Ended b) (sym (finish-closed _ coded.plain)) (closed-Ended b _ coded)))))
