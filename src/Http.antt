-- ===== src/Http.antt =====
-- `IotProtocol` (kasa/iotprotocol.py) and `SmartProtocol` (kasa/smartprotocol.py): queries over an
-- HTTP transport. Their `_query` loops are the same text and are modelled once.
pub mod Transport
pub mod Iot
pub mod Smart
pub mod Laws
mod Tests
use python_kasa.Prelude.{ℕ, zero, suc, ◌+◌, ◌≤◌, leb, if◌then◌else◌}
use python_kasa.Exec.{
  Error, Result, NoneType, ok, err, smart_device, close_error, connect_error, timeout_error,
  authentication,
}
use python_kasa.Exec.State.{Exec}
use python_kasa.Retry.{Step, return, raise, again, for_retry}

-- `if retry >= retry_count: raise …`, and `continue`
abbrev pub give_up_or_retry : {A : Type 0} → ℕ → ℕ → Step A
give_up_or_retry retry_count retry = if leb retry_count retry then raise smart_device else again

module _ {S A : Type 0} (execute : Exec S A) (close : Exec S NoneType) where
  -- `await self.close()` in a handler, and what the handler does after it. What closing raises leaves the
  -- loop, as no other handler of the same `try` catches it.
  abbrev pub after_close : Step A → Result NoneType × S → Step A × S
  after_close next (ok r, s) = (next, s)
  after_close next (err e, s) = (raise e, s)

  -- The handlers: whether the transport is closed, and whether the loop goes on.
  abbrev pub handle : ℕ → ℕ → Result A × S → Step A × S
  handle retry_count retry (ok a, s) = (return a, s)
  handle retry_count retry (err close_error, s) =
      after_close (give_up_or_retry retry_count retry) (close s)
  handle retry_count retry (err connect_error, s) = after_close (raise smart_device) (close s)
  handle retry_count retry (err timeout_error, s) = after_close (raise smart_device) (close s)
  handle retry_count retry (err authentication, s) = (raise authentication, s)
  handle retry_count retry (err e, s) = after_close (give_up_or_retry retry_count retry) (close s)

  pub round : ℕ → ℕ → S → Step A × S
  round retry_count retry s = handle retry_count retry (execute s)

  -- "this should never be reached"
  abbrev pub unreachable : S → Result A × S
  unreachable s = (err smart_device, s)

  pub query_loop : ℕ → S → Result A × S
  query_loop retry_count s = for_retry (round retry_count) unreachable (suc retry_count) 0 s
