-- ===== src/Body/Limits.antt =====
-- What src/body.rs does not do: hold a reader back, and decode deflate and brotli.
use dmeng.Prelude.{ℕ, ◌≡◌, ◌≢◌, ◌⊎◌, true, length, leb, arith, Option-cases, Bool-cases, inl, inr}
use dmeng.Prelude.Poll.{ok}
use dmeng.Error.{Bytes}
use dmeng.Body.Platform.{Platform, SemaphoreLaws}
use dmeng.Body.State.{Body, check_over_limit, compress_method_deflate, compress_method_brotli}
use dmeng.Body.Codec.{decode_read_data}
use dmeng.Body.Process.{Times, inner_poll_sem_ready}

-- A body that holds a permit is never kept from reading on, however much it has read: where
-- `check_over_limit` takes the permit, it goes back to the semaphore, and the next poll gets it again.
check_over_limit-ready :
    (p : Platform) (laws : SemaphoreLaws p) (fuel : ℕ) (times : ℕ → Times) (b : Body p)
    → b.permit ≡ true
    → (inner_poll_sem_ready p fuel times (check_over_limit p b)).0 ≡ ok tt
unfolding check_over_limit inner_poll_sem_ready
check_over_limit-ready p laws fuel times b held =
    let released = laws.release_lem b.sem in
    let again = laws.acquire_lem (p.release b.sem) (omega arith) in
    elim (Option-cases b.read_buf) [
      | inl e ↦ rw (e, held)
      | inr (bin, e) ↦ elim (Bool-cases (leb b.max_read_buf (length bin))) [
        | inl over ↦ grind (arith, again)
        | inr under ↦ grind arith
      ]
    ]

-- Where the body comes in deflate or brotli and is to be decoded, the outcome and the body are the same
-- whatever bytes came in: they never reach the decoder.
decode_read_data-ignores :
    (p : Platform) (fuel : ℕ) (x y : Bytes) (b : Body p)
    → (b.origin_compress_method ≡ compress_method_deflate)
      ⊎ (b.origin_compress_method ≡ compress_method_brotli)
    → b.now_compress_method ≢ b.origin_compress_method
    → decode_read_data p fuel x b ≡ decode_read_data p fuel y b
unfolding decode_read_data
decode_read_data-ignores p fuel x y b (inl e) differs = grind (arith, e)
decode_read_data-ignores p fuel x y b (inr e) differs = grind (arith, e)
