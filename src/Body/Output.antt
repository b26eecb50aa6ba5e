-- ===== src/Body/Output.antt =====
-- What a plain chunked body of src/body.rs puts out, poll by poll.
pub mod Steps
pub mod Polls
use mathlib.Core.Path.{subst}
use dmeng.Prelude.{
  ℕ, zero, suc, ◌+◌, ◌≤◌, ◌<◌, ◌≡◌, Bool, true, false, not, Option, none, some, List, [], ◌∷◌, ◌++◌,
  append-nil, append_assoc, length, ltb, if◌then◌else◌, if_true, if_false, arith, refl, sym, ap,
  ◌∙◌, Bool-cases, Option-cases, inl, inr,
}
use dmeng.Prelude.Poll.{Outcome, ok, ◌>>>◌, past}
use dmeng.Error.{Bytes}
use dmeng.Body.Platform.{Platform, SemaphoreLaws, ChannelLaws}
use dmeng.Body.Receiver
use dmeng.Body.State.{Body, copy_now, notify_some_read}
use dmeng.Body.Codec.{encode_write_data, decode_read_data}
use dmeng.Body.Process.{
  Times, process_data, read_data, poll_encode_write, take_origin, encode_read, finish_encode,
  inner_poll_read,
}
use dmeng.Body.Plain.{
  IsPlain, Reads, Reads-refl, Reads-trans, messages, waiting, notify_some_read-Reads,
}
use dmeng.Body.Plain.Loop.{inner_poll_read-plain}
use dmeng.SendStream.Fixed.{concat, concat-append}
use dmeng.SendStream.Chunked.{encoded, NonEmpty}

encoded-append :
    (p : Platform) (ds es : List Bytes)
    → encoded p.helper (ds ++ es) ≡ encoded p.helper ds ++ encoded p.helper es
encoded-append p [] es = refl
encoded-append p (d ∷ ds) es =
    ap (λ b. p.helper.encode_chunk_data d ++ b) (encoded-append p ds es)
    ∙ sym (append_assoc (p.helper.encode_chunk_data d) (encoded p.helper ds) (encoded p.helper es))

NonEmpty-append : (ds es : List Bytes) → NonEmpty ds → NonEmpty es → NonEmpty (ds ++ es)
NonEmpty-append [] es f g = g
NonEmpty-append (d ∷ ds) es f g = (f.0, NonEmpty-append ds es f.1 g)

module _ (p : Platform) (laws : ChannelLaws p) (sem_laws : SemaphoreLaws p) where
  abbrev pub origin : Body p → Bytes
  origin b = elim b.origin_buf [ none ↦ [] | some x ↦ x ]

  -- What was received and is not yet put out, and what is still to be received.
  abbrev pub to_come : Body p → Bytes
  to_come b = copy_now p b ++ (origin b ++ waiting p laws sem_laws b.receiver)

  -- The last chunk, once the body is done.
  abbrev pub last_chunk : Bool → Bytes
  last_chunk is_process_end = if is_process_end then p.helper.encode_chunk_data [] else []

  -- From `b` to `c` the bytes `o` were put out: chunks that are not empty, and the last one at the end.
  pub record Outputs (b c : Body p) (o : Bytes) : Type 0 where
    pub pieces : List Bytes
    pub full : NonEmpty pieces
    pub coded : o ≡ encoded p.helper pieces ++ last_chunk c.is_process_end
    pub same : concat pieces ++ to_come c ≡ to_come b
    pub plain : IsPlain p laws sem_laws c
    pub fewer :
        length (messages p laws sem_laws c.receiver) ≤ length (messages p laws sem_laws b.receiver)

  Outputs-trans :
      (b c d : Body p) (o o' : Bytes)
      → c.is_process_end ≡ false
      → Outputs b c o
      → Outputs c d o'
      → Outputs b d (o ++ o')
  Outputs-trans b c d o o' going f g = record {
    pieces = f.pieces ++ g.pieces;
    full = NonEmpty-append f.pieces g.pieces f.full g.full;
    coded =
        let coded : o ≡ encoded p.helper f.pieces =
          f.coded
          ∙ ap (λ e. encoded p.helper f.pieces ++ last_chunk e) going
          ∙ append-nil (encoded p.helper f.pieces) in
        rw (coded, g.coded, encoded-append p f.pieces g.pieces)
          (sym (
            append_assoc (encoded p.helper f.pieces) (encoded p.helper g.pieces)
              (last_chunk d.is_process_end)));
    same =
        rw
          (
            concat-append f.pieces g.pieces,
            append_assoc (concat f.pieces) (concat g.pieces) (to_come d),
            g.same,
          )
          f.same;
    plain = g.plain;
    fewer = omega (arith, f.fewer, g.fewer);
  }

  -- Everything that is at hand is in `read_buf`, and nothing is encoded yet.
  record Gathered (b d : Body p) : Type 0 where
    plain : IsPlain p laws sem_laws d
    same_cache : d.cache_body_data ≡ b.cache_body_data
    no_origin : d.origin_buf ≡ none
    same : copy_now p d ++ waiting p laws sem_laws d.receiver ≡ to_come b
    fewer :
        length (messages p laws sem_laws d.receiver) ≤ length (messages p laws sem_laws b.receiver)

  Gathered-Reads : (b c d : Body p) → Gathered b c → Reads p laws sem_laws c d → Gathered b d
  Gathered-Reads b c d g r = record {
    plain = r.plain;
    same_cache = r.same_cache ∙ g.same_cache;
    no_origin = r.same_origin ∙ g.no_origin;
    same = r.same_bytes ∙ g.same;
    fewer = omega (arith, r.fewer, g.fewer);
  }

  module _ (fuel : ℕ) (times : ℕ → Times) where
    decode-plain :
        (x : Bytes) (b : Body p)
        → b.origin_compress_method ≡ 0
        → decode_read_data p fuel x b
          ≡ (ok (length x), record b { read_buf = some (copy_now p b ++ x) })
    unfolding decode_read_data copy_now
    decode-plain x b no_method = elim (Option-cases b.read_buf) [
      | inl e ↦ grind (arith, no_method)
      | inr (y, e) ↦ grind (arith, no_method)
    ]

    take_origin-some :
        (x : Bytes) (b : Body p)
        → b.origin_buf ≡ some x
        → take_origin p fuel times b ≡ decode_read_data p fuel x (record b { origin_buf = none })
    unfolding take_origin
    take_origin-some x b e = rw e

    take_origin-plain :
        (b : Body p)
        → IsPlain p laws sem_laws b
        → let r = take_origin p fuel times b in ((n : ℕ) × (r.0 ≡ ok n)) × Gathered b r.1
    unfolding take_origin decode_read_data copy_now
    take_origin-plain b plain = elim (Option-cases b.origin_buf) [
      | inl e ↦
          let h : take_origin p fuel times b ≡ (ok 0, b) = rw e in
          subst (λ r. ((n : ℕ) × (r.0 ≡ ok n)) × Gathered b r.1) (sym h)
            (
              (0, refl),
              record {
                plain = plain;
                same_cache = refl;
                no_origin = e;
                same = rw e;
                fewer = omega arith;
              },
            )
      | inr (x, e) ↦
          let c = record b { origin_buf = none; read_buf = some (copy_now p b ++ x) } in
          let h : take_origin p fuel times b ≡ (ok (length x), c) =
            take_origin-some x b e
            ∙ decode-plain x (record b { origin_buf = none }) plain.no_origin_method in
          subst (λ r. ((n : ℕ) × (r.0 ≡ ok n)) × Gathered b r.1) (sym h)
            (
              (length x, refl),
              record {
                plain = record {
                  no_origin_method = plain.no_origin_method;
                  no_now_method = plain.no_now_method;
                  chunked = plain.chunked;
                  no_file = plain.no_file;
                  free = plain.free;
                };
                same_cache = refl;
                no_origin = refl;
                same = rw e (append_assoc (copy_now p b) x (waiting p laws sem_laws b.receiver));
                fewer = omega arith;
              },
            )
    ]

    encode-plain :
        (bytes : Bytes) (b : Body p)
        → IsPlain p laws sem_laws b
        → encode_write_data p bytes b ≡ (
          ok tt,
          record b { cache_body_data = b.cache_body_data ++ p.helper.encode_chunk_data bytes },
        )
    unfolding encode_write_data
    encode-plain bytes b plain =
        grind (arith, plain.no_origin_method, plain.no_now_method, plain.chunked)
