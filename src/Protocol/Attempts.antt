-- ===== src/Protocol/Attempts.antt =====
-- How often a query of the legacy protocol connects.
use python_kasa.Prelude.{ℕ, ◌+◌, ◌≤◌, ◌<◌, ◌≡◌, refl, ◌∙◌, List, arith}
use python_kasa.Exec.{Result}
use python_kasa.Exec.State.{Keeps, keeps_rules, ◌>>=◌}
use python_kasa.Retry.{again}
use python_kasa.Retry.Runs.{Run-induction}
use python_kasa.Protocol
use python_kasa.Protocol.{Network, Connection}
use python_kasa.Protocol.Laws.{query_text-Run}

-- `opens` counts the connections that a network has been asked for.
pub record IsCounter (net : Network) (opens : net.World → ℕ) : Type 0 where
  pub counted : (w : net.World) → opens (net.open_connection w).1 ≡ opens w + 1
  pub on_nodelay : (w : net.World) → opens (net.set_nodelay w).1 ≡ opens w
  pub on_send : (bs : List ℕ) (w : net.World) → opens (net.send bs w).1 ≡ opens w
  pub on_read : (n : ℕ) (w : net.World) → opens (net.readexactly n w).1 ≡ opens w
  pub on_close : (w : net.World) → opens (net.close_writer w) ≡ opens w

module _ (net : Network) (opens : net.World → ℕ) (count : IsCounter net opens) where
  connect-opens : (s : Connection net) → opens (Protocol.connect net s).1.world ≤ opens s.world + 1
  unfolding Protocol.connect ◌>>=◌
  connect-opens s = grind (arith, count.counted, count.on_nodelay)

  -- An operation that opens nothing.
  on_world-Keeps :
      {A : Type 0} (m : ℕ) (op : net.World → Result A × net.World)
      → ((w : net.World) → opens (op w).1 ≡ opens w)
      → Keeps (λ (s : Connection net). opens s.world ≡ m) (Protocol.on_world net op)
  on_world-Keeps m op same = record { at = λ s h. same s.world ∙ h }

  execute_query-Keeps :
      (m : ℕ) (text : List ℕ)
      → Keeps (λ (s : Connection net). opens s.world ≡ m) (Protocol.execute_query net text)
  unfolding Protocol.execute_query Protocol.read_response
  execute_query-Keeps m text =
      search (keeps_rules, on_world-Keeps, count.on_send, count.on_read) depth 12

  execute_query-opens :
      (text : List ℕ) (s : Connection net)
      → opens (Protocol.execute_query net text s).1.world ≡ opens s.world
  execute_query-opens text s = (execute_query-Keeps (opens s.world) text).at s refl

  close-opens : (s : Connection net) → opens (Protocol.close net s).world ≡ opens s.world
  unfolding Protocol.close
  close-opens s = ground (arith, count.on_close s.world)

  round-opens :
      (text : List ℕ) (n r : ℕ) (s : Connection net)
      → opens (Protocol.round net text n r s).1.world ≤ opens s.world + 1
  unfolding Protocol.round
  round-opens text n r s = ground (
    arith,
    connect-opens s,
    close-opens (Protocol.connect net s).1,
    execute_query-opens text (Protocol.connect net s).1,
    close-opens (Protocol.execute_query net text (Protocol.connect net s).1).1,
  )

  round-again :
      (text : List ℕ) (n r : ℕ) (s : Connection net)
      → (Protocol.round net text n r s).0 ≡ again
      → r < n
  unfolding Protocol.round
  round-again text n r s h = ground arith

  -- A query asks for at most `retry_count + 1` connections.
  pub query_text-opens :
      (text : List ℕ) (retry_count : ℕ) (s : Connection net)
      → opens (Protocol.query_text net text retry_count s).1.world ≤ opens s.world + retry_count + 1
  query_text-opens text n s =
      Run-induction (λ r t. (r ≤ n) × (opens t.world ≤ opens s.world + r))
        (λ (_, t). opens t.world ≤ opens s.world + n + 1)
        (λ r t h e. omega (arith, round-opens text n r t, round-again text n r t e))
        (λ r t a h e. omega (arith, round-opens text n r t))
        (λ r t x h e. omega (arith, round-opens text n r t)) (omega arith)
        (query_text-Run net text n s).2
