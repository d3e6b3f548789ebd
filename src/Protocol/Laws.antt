-- ===== src/Protocol/Laws.antt =====
-- What `query` of the legacy protocol guarantees, whatever the network does.
use python_kasa.Prelude.{
  ℕ, zero, suc, ◌+◌, ◌≤◌, ◌<◌, ◌≡◌, ◌≢◌, refl, ◌∙◌, Bool, true, false, List, arith,
}
use python_kasa.Exec.{Error, Result, NoneType, ok, err, smart_device, connection_refused, os_error}
use python_kasa.Exec.State.{Keeps, ◌>>=◌}
use python_kasa.Json.{Value}
use python_kasa.Retry.{Step, return, raise, again, for_retry}
use python_kasa.Retry.Runs.{
  Run, for_retry-Run, Run-induction, for_retry-return, for_retry-raise, for_retry-again,
}
use python_kasa.Protocol
use python_kasa.Protocol.{
  Network, is_no_retry_error, after_connect_error, after_query_error, Connection, Request, raw,
  dict,
}

module _ (net : Network) where
  round-last :
      (request : List ℕ) (n : ℕ) (s : Connection net) → (Protocol.round net request n n s).0 ≢ again
  unfolding Protocol.round
  round-last request n s h = ground arith

  -- A query is a run of at most `retry_count + 1` rounds, and the code behind the loop, which
  -- "should never be reached", is not reached.
  pub query_text-Run :
      (request : List ℕ) (retry_count : ℕ) (s : Connection net)
      → (k : ℕ) × (k ≤ retry_count + 1)
        × Run
            (Protocol.round net request retry_count)
            0
            k
            s
            (Protocol.query_text net request retry_count s)
  unfolding Protocol.query_text
  query_text-Run request retry_count s =
      let (k, few, run) =
        for_retry-Run (Protocol.round net request retry_count) (Protocol.unreachable net)
          retry_count (round-last request retry_count) retry_count 0 s (omega arith) in
      (k, omega arith, run)

  -- The exchange neither opens nor closes the connection.
  execute_query-Keeps :
      (b : Bool) (request : List ℕ)
      → Keeps (λ (s : Connection net). s.connected ≡ b) (Protocol.execute_query net request)
  unfolding Protocol.execute_query Protocol.read_response ◌>>=◌
  execute_query-Keeps b request = record { at = λ s h. ground arith }

  connect-connected :
      (s : Connection net)
      → (Protocol.connect net s).0 ≡ ok tt
      → (Protocol.connect net s).1.connected ≡ true
  unfolding Protocol.connect ◌>>=◌
  connect-connected s h = ground arith

  -- A query that returns leaves the connection open; one that raises has closed it.
  abbrev pub IsSettled : Result Value × Connection net → Type 0
  IsSettled (ok v, s) = s.connected ≡ true
  IsSettled (err e, s) = (e ≡ smart_device) × (s.connected ≡ false)

  -- The same of one round; one that goes on has closed the connection too.
  abbrev IsRoundSettled : Step Value × Connection net → Type 0
  IsRoundSettled (return v, s) = s.connected ≡ true
  IsRoundSettled (raise e, s) = (e ≡ smart_device) × (s.connected ≡ false)
  IsRoundSettled (again, s) = s.connected ≡ false

  finish_round-settled :
      (n r : ℕ) (o : Result Value × Connection net)
      → o.1.connected ≡ true
      → IsRoundSettled (Protocol.finish_round net n r o)
  unfolding Protocol.close
  finish_round-settled n r (ok v, s) h = h
  finish_round-settled n r (err e, s) h = ground arith

  round-settled :
      (request : List ℕ) (n r : ℕ) (s : Connection net)
      → IsRoundSettled (Protocol.round net request n r s)
  unfolding Protocol.round
  round-settled request n r s = by_result (Protocol.connect net s) (connect-connected s)
    where
      by_result :
          (o : Result NoneType × Connection net)
          → (o.0 ≡ ok tt → o.1.connected ≡ true)
          → IsRoundSettled (Protocol.after_connect net request n r o)
      by_result (ok _, t) h =
          finish_round-settled n r (Protocol.execute_query net request t)
            ((execute_query-Keeps true request).at t (h refl))
      by_result (err e, t) h = unfold Protocol.close in ground arith

  query_text-IsSettled :
      (text : List ℕ) (n : ℕ) (s : Connection net) → IsSettled (Protocol.query_text net text n s)
  query_text-IsSettled text n s =
      Run-induction (λ r t. Unit {0}) IsSettled (λ r t _ _. tt)
        (λ r t a _ e. ground (arith, round-settled text n r t))
        (λ r t x _ e. ground (arith, round-settled text n r t)) tt (query_text-Run text n s).2

  -- Whatever the network does, a query returns with the connection open, or raises
  -- SmartDeviceException, and no other exception, with the connection closed.
  pub query-IsSettled :
      (request : Request) (retry_count : ℕ) (s : Connection net)
      → IsSettled (Protocol.query net request retry_count s)
  unfolding Protocol.query
  query-IsSettled (raw text) n s = query_text-IsSettled text n s
  query-IsSettled (dict fields) n s = query_text-IsSettled (net.json_dumps fields) n s

  -- The errors on which the loop gives up at once.
  abbrev pub is_fatal : Error → Bool
  is_fatal connection_refused = true
  is_fatal (os_error k) = is_no_retry_error k
  is_fatal _ = false

  round-fatal :
      (text : List ℕ) (n r : ℕ) (s : Connection net) (e : Error)
      → s.connected ≡ false
      → (net.open_connection s.world).0 ≡ err e
      → is_fatal e ≡ true
      → Protocol.round net text n r s ≡ (
        raise smart_device,
        record { connected = false; world = (net.open_connection s.world).1 },
      )
  unfolding Protocol.round Protocol.connect Protocol.close ◌>>=◌
  round-fatal text n r s e closed refused fatal = ground arith

  -- A host that refuses the connection, or is down or unreachable, is not asked again: the query
  -- raises SmartDeviceException after the first attempt, whatever the retry count.
  pub query_text-fatal :
      (text : List ℕ) (retry_count : ℕ) (s : Connection net) (e : Error)
      → s.connected ≡ false
      → (net.open_connection s.world).0 ≡ err e
      → is_fatal e ≡ true
      → Protocol.query_text net text retry_count s
        ≡ (err smart_device, record { connected = false; world = (net.open_connection s.world).1 })
  unfolding Protocol.query_text
  query_text-fatal text n s e closed refused fatal =
      for_retry-raise _ (Protocol.unreachable net) n 0 s
        (round-fatal text n 0 s e closed refused fatal)

  round-stale :
      (text : List ℕ) (n r : ℕ) (s : Connection net) (e : Error)
      → s.connected ≡ true
      → (Protocol.execute_query net text s).0 ≡ err e
      → r < n
      → Protocol.round net text n r s
        ≡ (again, Protocol.close net (Protocol.execute_query net text s).1)
  unfolding Protocol.round Protocol.connect ◌>>=◌
  round-stale text n r s e live stale more = ground arith

  round-fresh :
      (text : List ℕ) (n r : ℕ) (s : Connection net) (v : Value)
      → (Protocol.connect net s).0 ≡ ok tt
      → (Protocol.execute_query net text (Protocol.connect net s).1).0 ≡ ok v
      → Protocol.round net text n r s
        ≡ (return v, (Protocol.execute_query net text (Protocol.connect net s).1).1)
  unfolding Protocol.round
  round-fresh text n r s v opened answered = ground arith

  -- A connection that has gone stale costs one round: with a retry left, the query closes it,
  -- connects again, and returns what the new connection answers.
  pub query_text-reconnects :
      (text : List ℕ) (retry_count : ℕ) (s : Connection net) (e : Error) (v : Value)
      → 0 < retry_count
      → s.connected ≡ true
      → (Protocol.execute_query net text s).0 ≡ err e
      → let t = Protocol.close net (Protocol.execute_query net text s).1 in
        (Protocol.connect net t).0 ≡ ok tt
        → (Protocol.execute_query net text (Protocol.connect net t).1).0 ≡ ok v
        → Protocol.query_text net text retry_count s
          ≡ (ok v, (Protocol.execute_query net text (Protocol.connect net t).1).1)
  unfolding Protocol.query_text
  query_text-reconnects text zero s e v some_left live stale opened answered = absurd (omega arith)
  query_text-reconnects text (suc n) s e v some_left live stale opened answered =
      let t = Protocol.close net (Protocol.execute_query net text s).1 in
      let loop = for_retry (Protocol.round net text (suc n)) (Protocol.unreachable net) in
      let first : loop (suc (suc n)) 0 s ≡ loop (suc n) (0 + 1) t =
        for_retry-again _ _ (suc n) 0 s (round-stale text (suc n) 0 s e live stale (omega arith)) in
      first
      ∙ for_retry-return _ _ n (0 + 1) t (round-fresh text (suc n) (0 + 1) t v opened answered)
