-- ===== src/Transport.antt =====
-- What a call of another library answers: a poll of a transport, or a result that is no poll.
use dmeng.Prelude.{ℕ, ◌≡◌, ◌⊎◌, inl, inr, refl}
use dmeng.Error.{ProtError}

-- A poll of an `AsyncRead` or `AsyncWrite`: the answer, with the transport afterwards.
pub data Polled (S A : Type 0) : Type 0 where
  wait : S → Polled S A
  done : A → S → Polled S A
  fail : ℕ → S → Polled S A

-- `Result<A, ProtError>` of a call that is no poll.
pub data Result (A : Type 0) : Type 0 where
  good : A → Result A
  bad : ProtError → Result A

pub Result-cases :
    {A : Type 0} (r : Result A) → ((a : A) × (r ≡ good a)) ⊎ ((e : ProtError) × (r ≡ bad e))
Result-cases (good a) = inl (a, refl)
Result-cases (bad e) = inr (e, refl)
