-- ===== src/Retry/Runs.antt =====
-- A retry loop as a run of rounds: all but the last go on, and the last one decides.
use python_kasa.Prelude.{ℕ, zero, suc, ◌+◌, ◌≤◌, ◌≡◌, ◌≢◌, refl, arith}
use python_kasa.Exec.{Error, Result, ok, err}
use python_kasa.Retry.{Step, return, raise, again, for_retry}

-- `Run body r k s out`: from the state `s`, the rounds `r`, `r + 1`, … end with the outcome
-- `out`, after `k` of them.
pub data Run {S A : Type 0} (body : ℕ → S → Step A × S) : ℕ → ℕ → S → Result A × S → Type 0 where
  returns : {r : ℕ} {s s' : S} {a : A} → body r s ≡ (return a, s') → Run body r 1 s (ok a, s')
  raises : {r : ℕ} {s s' : S} {e : Error} → body r s ≡ (raise e, s') → Run body r 1 s (err e, s')
  retries :
      {r k : ℕ} {s s' : S} {out : Result A × S}
      → body r s ≡ (again, s')
      → Run body (r + 1) k s' out
      → Run body r (suc k) s out

module _ {S A : Type 0} (body : ℕ → S → Step A × S) (after : S → Result A × S) where
  first_round :
      (left r : ℕ) (s : S) (o : Step A)
      → (body r s).0 ≡ o
      → (o ≡ again
          → (k : ℕ) × (k ≤ left)
            × Run body (r + 1) k (body r s).1 (for_retry body after left (r + 1) (body r s).1))
      → (k : ℕ) × (k ≤ suc left) × Run body r k s (for_retry body after (suc left) r s)
  unfolding for_retry
  first_round left r s (return a) e rest =
      (1, omega arith, rw (e, for_retry) (returns (λ i. (e i, (body r s).1))))
  first_round left r s (raise x) e rest =
      (1, omega arith, rw (e, for_retry) (raises (λ i. (e i, (body r s).1))))
  first_round left r s again e rest =
      let (k, few, run) = rest refl in
      (suc k, omega arith, rw (e, for_retry) (retries (λ i. (e i, (body r s).1)) run))

  -- Where round `n` never goes on, a loop that may reach round `n` is a run of at most as many
  -- rounds as it has, and what stands after the loop is not reached.
  pub for_retry-Run :
      (n : ℕ)
      → ((s : S) → (body n s).0 ≢ again)
      → (left r : ℕ) (s : S) → r + left ≡ n
      → (k : ℕ) × (k ≤ suc left) × Run body r k s (for_retry body after (suc left) r s)
  for_retry-Run n last zero r s e =
      let here : r ≡ n = omega arith in
      first_round zero r s (body r s).0 refl (λ more. absurd (last s (rw here at more)))
  for_retry-Run n last (suc left) r s e =
      first_round (suc left) r s (body r s).0 refl
        (λ more. for_retry-Run n last left (r + 1) (body r s).1 (omega arith))

-- What every round keeps, and its last round turns into `Q`, holds of the outcome.
pub Run-induction {ℓ κ} :
    {S A : Type 0} {body : ℕ → S → Step A × S} (P : ℕ → S → Type ℓ) (Q : Result A × S → Type κ)
    → ((r : ℕ) (s : S) → P r s → (body r s).0 ≡ again → P (r + 1) (body r s).1)
    → ((r : ℕ) (s : S) (a : A) → P r s → (body r s).0 ≡ return a → Q (ok a, (body r s).1))
    → ((r : ℕ) (s : S) (e : Error) → P r s → (body r s).0 ≡ raise e → Q (err e, (body r s).1))
    → {r k : ℕ} {s : S} {out : Result A × S} → P r s
    → Run body r k s out
    → Q out
Run-induction P Q step done fail h (returns {r} {s} {a = a} p) = rw p at (done r s a h (rw p))
Run-induction P Q step done fail h (raises {r} {s} {e = x} p) = rw p at (fail r s x h (rw p))
Run-induction P Q step done fail h (retries {r} {s = s} p run) =
    Run-induction P Q step done fail (rw p at (step r s h (rw p))) run

-- One round of the loop, by how it ends.
module _ {S A : Type 0} (body : ℕ → S → Step A × S) (after : S → Result A × S) (left r : ℕ) (s : S)
    {s' : S} where
  pub for_retry-return :
      {a : A} → body r s ≡ (return a, s') → for_retry body after (suc left) r s ≡ (ok a, s')
  unfolding for_retry
  for_retry-return e = ground arith

  pub for_retry-raise :
      {x : Error} → body r s ≡ (raise x, s') → for_retry body after (suc left) r s ≡ (err x, s')
  unfolding for_retry
  for_retry-raise e = ground arith

  pub for_retry-again :
      body r s ≡ (again, s')
      → for_retry body after (suc left) r s ≡ for_retry body after left (r + 1) s'
  unfolding for_retry
  for_retry-again e = ground arith
