-- ===== src/Retry.antt =====
-- The shape of the three `_query` loops (protocol.py, iotprotocol.py, smartprotocol.py): a body
-- that returns, raises, or goes on to the next round.
pub mod Runs
use python_kasa.Prelude.{ℕ, zero, suc, ◌+◌, ◌≤◌, ◌≡◌}
use python_kasa.Exec.{Error, Result, ok, err}

-- How one round ends: `return a`, `raise e`, or `continue`.
pub data Step (A : Type 0) : Type 0 where
  return : A → Step A
  raise : Error → Step A
  again : Step A

module _ {S A : Type 0} (body : ℕ → S → Step A × S) (after : S → Result A × S) where
  -- `for retry in range(retry, retry + left): body`, and `after` when the rounds have run out
  unfoldable pub for_retry : ℕ → ℕ → S → Result A × S
  for_retry zero retry s = after s
  for_retry (suc left) retry s =
      let rest = for_retry left (retry + 1) (body retry s).1 in
      elim (body retry s).0 [
        | return a ↦ (ok a, (body retry s).1)
        | raise e ↦ (err e, (body retry s).1)
        | again ↦ rest
      ]
