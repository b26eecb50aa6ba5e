-- ===== src/Body/Output/Polls.antt =====
-- One poll, and any number of polls, of a plain chunked body of src/body.rs.
use mathlib.Core.Path.{subst}
use dmeng.Prelude.{
  ℕ, zero, suc, ◌<◌, ◌≡◌, true, false, none, [], ◌++◌, append-nil, append_assoc, length, if_true,
  if_false, arith, refl, sym, ap, ◌∙◌, Bool-cases, inl, inr,
}
use dmeng.Prelude.Poll.{Outcome, ok}
use dmeng.Error.{Bytes}
use dmeng.Body.Platform.{Platform, SemaphoreLaws, ChannelLaws}
use dmeng.Body.State.{Body, copy_now}
use dmeng.Body.Process.{Times, process_data, read_data, poll_encode_write}
use dmeng.Body.Plain.{IsPlain, messages}
use dmeng.Body.Output.{Outputs, Outputs-trans}
use dmeng.Body.Output.Steps.{process_data-Ended}

module _ (p : Platform) (laws : ChannelLaws p) (sem_laws : SemaphoreLaws p) (fuel : ℕ)
    (times : ℕ → Times) where
  -- What `poll_encode_write` answers and hands over.
  abbrev Polled : (b : Body p) → Outcome ℕ ℕ × Bytes × Body p → Type 0
  Polled b r =
      (r.0 ≡ ok (length r.1)) × (r.2.cache_body_data ≡ []) × Outputs p laws sem_laws b r.2 r.1

  emptied_cache :
      (b c : Body p) (o : Bytes)
      → b.cache_body_data ≡ []
      → c.cache_body_data ≡ b.cache_body_data ++ o
      → Outputs p laws sem_laws b c o
      → Polled b
          (ok (length c.cache_body_data), c.cache_body_data, record c { cache_body_data = [] })
  unfolding copy_now
  emptied_cache b c o start held out =
      let whole : c.cache_body_data ≡ o = held ∙ ap (λ x. x ++ o) start in
      (
        refl,
        refl,
        record {
          pieces = out.pieces;
          full = out.full;
          coded = whole ∙ out.coded;
          same = out.same;
          plain = record {
            no_origin_method = out.plain.no_origin_method;
            no_now_method = out.plain.no_now_method;
            chunked = out.plain.chunked;
            no_file = out.plain.no_file;
            free = out.plain.free;
          };
          fewer = out.fewer;
        },
      )

  -- The state and the bytes after any more steps.
  abbrev Settled : (b : Body p) → Outcome ℕ ℕ × Body p → Type 0
  Settled b r =
      (r.0 ≡ ok 0)
      × (o : Bytes) × (r.1.cache_body_data ≡ b.cache_body_data ++ o)
      × Outputs p laws sem_laws b r.1 o

  -- `read_data` moves the body on once more, without a context.
  settle :
      (b c : Body p) (o : Bytes)
      → c.origin_buf ≡ none
      → c.cache_body_data ≡ b.cache_body_data ++ o
      → Outputs p laws sem_laws b c o
      → length (messages p laws sem_laws c.receiver) < fuel
      → Settled b (process_data p fuel times false c)
  unfolding process_data
  settle b c o no_origin held out enough = elim (Bool-cases c.is_process_end) [
    | inl ended ↦ subst (Settled b) (sym (if_true c.is_process_end _ _ ended)) (refl, o, held, out)
    | inr going ↦
        let (done, no_origin', o', held', out') =
          process_data-Ended p laws sem_laws fuel times false c out.plain going enough in
        (
          done,
          o ++ o',
          held' ∙ ap (λ x. x ++ o') held ∙ append_assoc b.cache_body_data o o',
          Outputs-trans p laws sem_laws b c _ o o' going out out',
        )
  ]

  poll_ok :
      (b : Body p) (n : ℕ)
      → (process_data p fuel times true b).0 ≡ ok n
      → poll_encode_write p fuel times b
        ≡ read_data p fuel times (process_data p fuel times true b).1
  unfolding poll_encode_write
  poll_ok b n e = rw (poll_encode_write, e)

  read_ok :
      (b : Body p) (n : ℕ)
      → (process_data p fuel times false b).0 ≡ ok n
      → let c = (process_data p fuel times false b).1 in
        read_data p fuel times b
        ≡ (ok (length c.cache_body_data), c.cache_body_data, record c { cache_body_data = [] })
  unfolding read_data
  read_ok b n e = rw (read_data, e)

  -- One poll of a body that is not done.
  poll-Polled :
      (b : Body p)
      → IsPlain p laws sem_laws b
      → b.is_process_end ≡ false
      → b.cache_body_data ≡ []
      → length (messages p laws sem_laws b.receiver) < fuel
      → Polled b (poll_encode_write p fuel times b)
  poll-Polled b plain going start enough =
      let (done, no_origin, o, held, out) =
        process_data-Ended p laws sem_laws fuel times true b plain going enough in
      let c = (process_data p fuel times true b).1 in
      let (done', o', held', out') =
        settle b c o no_origin held out (omega (arith, out.fewer, enough)) in
      subst (Polled b) (sym (poll_ok b 0 done ∙ read_ok c 0 done'))
        (emptied_cache b _ o' start held' out')

  -- A number of polls, and what all of them hand over.
  unfoldable pub polls : ℕ → Body p → Bytes × Body p
  polls zero b = ([], b)
  polls (suc n) b =
      let r = poll_encode_write p fuel times b in let rest = polls n r.2 in (r.1 ++ rest.0, rest.1)

  -- A body that is done puts nothing out.
  poll-done :
      (b : Body p)
      → b.is_process_end ≡ true
      → b.cache_body_data ≡ []
      → poll_encode_write p fuel times b ≡ (ok 0, [], b)
  unfolding poll_encode_write read_data process_data
  poll-done b ended empty = rw (ended, empty)

  polls-done :
      (n : ℕ) (b : Body p) → b.is_process_end ≡ true → b.cache_body_data ≡ [] → polls n b ≡ ([], b)
  unfolding polls
  polls-done zero b ended empty = refl
  polls-done (suc n) b ended empty =
      ap (λ r. (r.1 ++ (polls n r.2).0, (polls n r.2).1)) (poll-done b ended empty)
      ∙ polls-done n b ended empty

  -- However often a plain chunked body is polled, with fuel for the messages that wait: what it hands
  -- over in all is a list of chunks, none of them empty, and the last chunk once where the body is done
  -- by then. The chunks hold what the body had to give, in its order; the rest is still to come.
  pub polls-Outputs :
      (n : ℕ) (b : Body p)
      → IsPlain p laws sem_laws b
      → b.is_process_end ≡ false
      → b.cache_body_data ≡ []
      → length (messages p laws sem_laws b.receiver) < fuel
      → Outputs p laws sem_laws b (polls n b).1 (polls n b).0
  unfolding polls
  polls-Outputs zero b plain going start enough = record {
    pieces = [];
    full = tt;
    coded = sym (if_false b.is_process_end _ _ going);
    same = refl;
    plain = plain;
    fewer = omega arith;
  }
  polls-Outputs (suc n) b plain going start enough =
      let (done, empty, out) = poll-Polled b plain going start enough in
      let c = (poll_encode_write p fuel times b).2 in
      elim (Bool-cases c.is_process_end) [
        | inl ended ↦
            let first = (poll_encode_write p fuel times b).1 in
            subst (λ r. Outputs p laws sem_laws b r.1 (first ++ r.0))
              (sym (polls-done n c ended empty))
              (subst (λ x. Outputs p laws sem_laws b c x) (sym (append-nil first)) out)
        | inr more ↦
            Outputs-trans p laws sem_laws b c _ _ _ more out
              (polls-Outputs n c out.plain more empty (omega (arith, out.fewer, enough)))
      ]
