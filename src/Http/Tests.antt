-- ===== src/Http/Tests.antt =====
-- The HTTP protocols over a transport whose world is the list of outcomes still to come.
use python_kasa.Prelude.{ℕ, ◌+◌, ◌≤◌, List, [], ◌∷◌, arith}
use python_kasa.Exec.{Result, NoneType, ok, err, connect_error, os_error}
use python_kasa.Exec.State.{Exec}
use python_kasa.Retry.Runs.{Run}
use python_kasa.Http
use python_kasa.Http.Laws.{IsSettled, IsRetried, query_loop-Run, query_loop-IsSettled}

-- The outcomes to come, and how often the transport was closed.
abbrev Script : Type 0
Script = List (Result ℕ) × ℕ

abbrev play : Exec Script ℕ
play ([], n) = (err connect_error, ([], n))
play (r ∷ rs, n) = (r, (rs, n))

abbrev shut : Exec Script NoneType
shut (rs, n) = (ok tt, (rs, n + 1))

abbrev flaky : Script
flaky = (err (os_error 5) ∷ ok 5 ∷ [], 0)

query_loop-Run_example :
    (k : ℕ) × (k ≤ 3 + 1)
    × Run (Http.round play shut 3) 0 k flaky (Http.query_loop play shut 3 flaky)
query_loop-Run_example = query_loop-Run play shut 3 flaky

query_loop-IsSettled_example : IsSettled play shut (Http.query_loop play shut 3 ([], 0))
query_loop-IsSettled_example = query_loop-IsSettled play shut 3 ([], 0)

retried_lem : IsRetried (os_error 5)
retried_lem = ground arith
