-- ===== src/Worker/Retry.antt =====
-- What transcribeWithRetry returns, told by the attempts that it makes.
use worker_thoth.Base.{
  ℕ, zero, suc, ◌+◌, ◌≤◌, ◌≡◌, refl, Bool, true, false, Bool-cases, inl, inr, arith, Text, codes,
  GoError, message, wrap, Result, ok, err, subst, [],
}
use worker_thoth.Outside.{Outside}
use worker_thoth.Whisper.{Client, is_transient, transcribe}
use worker_thoth.Worker.{
  max_retries, backoff, after_wait, after_attempt, retries_failed, retry_from,
  transcribe_with_retry,
}

module _ (x : Outside) (c : Client) (filename audio language : Text) where
  open x use {World, ctx_err}

  -- From `w`, `n` attempts in a row failed with an error worth a retry, the last one with `last`,
  -- each behind its wait, and led to `v`.
  pub data Failed (w : World) (start : GoError) : ℕ → GoError → World → Type 0 where
    none_yet : Failed w start 0 start w
    one_more :
        {n : ℕ} {last e : GoError} {v v1 v2 : World}
        → Failed w start n last v
        → backoff x n v ≡ (true, v1)
        → transcribe x c filename audio language v1 ≡ (err e, v2)
        → is_transient e ≡ true
        → Failed w start (suc n) e v2

  -- The ways in which it ends: a success, a final error, a cancelled wait, or the last error once
  -- all attempts have failed.
  pub data Ends (w : World) (start : GoError) : Result GoError Text → World → Type 0 where
    answered :
        {n : ℕ} {last : GoError} {v v1 v2 : World} {body : Text}
        → Failed w start n last v
        → n ≤ max_retries
        → backoff x n v ≡ (true, v1)
        → transcribe x c filename audio language v1 ≡ (ok body, v2)
        → Ends w start (ok body) v2
    final :
        {n : ℕ} {last e : GoError} {v v1 v2 : World}
        → Failed w start n last v
        → n ≤ max_retries
        → backoff x n v ≡ (true, v1)
        → transcribe x c filename audio language v1 ≡ (err e, v2)
        → is_transient e ≡ false
        → Ends w start (err e) v2
    cancelled :
        {n : ℕ} {last : GoError} {v v1 : World}
        → Failed w start n last v
        → n ≤ max_retries
        → backoff x n v ≡ (false, v1)
        → Ends w start (err (wrap (codes "cancelled during retry backoff") (ctx_err v1))) v1
    exhausted :
        {last : GoError} {v : World}
        → Failed w start (suc max_retries) last v
        → Ends w start (err (retries_failed x last)) v

  module _ (w : World) (start : GoError) where
    abbrev EndsIn : Result GoError Text × World → Type 0
    EndsIn r = Ends w start r.0 r.1

    attempt-Ends :
        (n : ℕ) (last : GoError) (v v1 : World) (r : Result GoError Text × World)
        (again : GoError → World → Result GoError Text × World)
        → n ≤ max_retries
        → Failed w start n last v
        → backoff x n v ≡ (true, v1)
        → transcribe x c filename audio language v1 ≡ r
        → ((e : GoError) (v2 : World) → Failed w start (suc n) e v2 → EndsIn (again e v2))
        → EndsIn (after_attempt x r again)
    attempt-Ends n last v v1 (ok body, v2) again le f waited tried next = answered f le waited tried
    attempt-Ends n last v v1 (err e, v2) again le f waited tried next =
        elim (Bool-cases (is_transient e)) [
          | inl retry ↦ rw retry (next e v2 (one_more f waited tried retry))
          | inr permanent ↦ rw permanent (final f le waited tried permanent)
        ]

    wait-Ends :
        (n : ℕ) (last : GoError) (v : World) (r : Bool × World)
        (attempt : World → Result GoError Text × World)
        → n ≤ max_retries
        → Failed w start n last v
        → backoff x n v ≡ r
        → ((v1 : World) → backoff x n v ≡ (true, v1) → EndsIn (attempt v1))
        → EndsIn (after_wait x r attempt)
    wait-Ends n last v (false, v1) attempt le f waited next = cancelled f le waited
    wait-Ends n last v (true, v1) attempt le f waited next = next v1 waited

    retry_from-Ends :
        (rounds n : ℕ) (last : GoError) (v : World)
        → rounds + n ≡ suc max_retries
        → Failed w start n last v
        → EndsIn (retry_from x c filename audio language rounds n last v)
    unfolding retry_from
    retry_from-Ends zero n last v e f =
        exhausted (subst (λ k. Failed w start k last v) (omega arith) f)
    retry_from-Ends (suc rounds) n last v e f =
        wait-Ends n last v (backoff x n v) _ (omega arith) f refl (λ v1 waited.
          attempt-Ends n last v v1 (transcribe x c filename audio language v1) _ (omega arith) f
            waited refl (λ e' v2 f'. retry_from-Ends rounds (suc n) e' v2 (omega arith) f'))

  -- Every run of transcribeWithRetry ends: after at most two failed attempts worth a retry, each
  -- behind its backoff wait, with an attempt that succeeds, one that fails for good, or a cancelled
  -- wait; or after three such failures, with the last error wrapped.
  pub transcribe_with_retry-Ends :
      (w : World)
      → let r = transcribe_with_retry x c filename audio language w in Ends w (message []) r.0 r.1
  unfolding transcribe_with_retry
  transcribe_with_retry-Ends w =
      retry_from-Ends w (message []) (suc max_retries) 0 (message []) w refl none_yet
