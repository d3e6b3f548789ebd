-- ===== src/Http/Laws.antt =====
-- What the HTTP protocols' retry loop guarantees, whatever the transport does.
use python_kasa.Prelude.{ℕ, zero, suc, ◌+◌, ◌≤◌, ◌<◌, ◌≡◌, ◌≢◌, refl, ◌∙◌, ◌⊎◌, inl, inr, arith}
use python_kasa.Exec.{
  Error, Result, NoneType, ok, err, smart_device, authentication, close_error, connect_error,
  timeout_error,
}
use python_kasa.Exec.State.{Exec}
use python_kasa.Retry.{Step, return, raise, again, for_retry}
use python_kasa.Retry.Runs.{
  Run, for_retry-Run, Run-induction, for_retry-return, for_retry-raise, for_retry-again,
}
use python_kasa.Http

-- The errors on which the loop goes on while there are retries left.
abbrev pub IsRetried : Error → Type 0
IsRetried e = (e ≢ connect_error) × (e ≢ timeout_error) × (e ≢ authentication)

module _ {S A : Type 0} (execute : Exec S A) (close : Exec S NoneType) where
  -- The transport was closed: the exception is SmartDeviceException, or what closing raised.
  abbrev pub IsClosed : Error → S → Type 0
  IsClosed e s = (t : S) × (((e ≡ smart_device) × (close t ≡ (ok tt, s))) ⊎ (close t ≡ (err e, s)))

  -- How a query may end.
  abbrev pub IsSettled : Result A × S → Type 0
  IsSettled (ok a, s) = Unit
  IsSettled (err e, s) = (e ≡ authentication) ⊎ IsClosed e s

  after_close_raises :
      (next : Step A) (t : S) (o : Result NoneType × S) (e : Error)
      → close t ≡ o
      → ((x : Error) → next ≡ raise x → x ≡ smart_device)
      → (Http.after_close execute close next o).0 ≡ raise e
      → IsClosed e (Http.after_close execute close next o).1
  after_close_raises next t (ok tt, s) e closed known h = (t, inl (known e h, closed))
  after_close_raises next t (err x, s) e closed known h = (t, inr (ground arith))

  last_or_again :
      (n r : ℕ) (x : Error) → Http.give_up_or_retry {A = A} n r ≡ raise x → x ≡ smart_device
  last_or_again n r x h = ground arith

  raises_smart_device :
      (next : Step A) (x : Error) → next ≡ raise smart_device → next ≡ raise x → x ≡ smart_device
  raises_smart_device next x e h = cc

  handle_raises :
      (n r : ℕ) (o : Result A × S) (e : Error)
      → (Http.handle execute close n r o).0 ≡ raise e
      → IsSettled (err e, (Http.handle execute close n r o).1)
  handle_raises n r (ok a, s) e h = cc
  handle_raises n r (err authentication, s) e h = inl (ground arith)
  handle_raises n r (err connect_error, s) e h =
      inr (after_close_raises _ s (close s) e refl (λ x. raises_smart_device _ x refl) h)
  handle_raises n r (err timeout_error, s) e h =
      inr (after_close_raises _ s (close s) e refl (λ x. raises_smart_device _ x refl) h)
  handle_raises n r (err x, s) e h =
      inr (after_close_raises _ s (close s) e refl (last_or_again n r) h)

  after_close_ends :
      (next : Step A) (o : Result NoneType × S)
      → next ≢ again
      → (Http.after_close execute close next o).0 ≢ again
  after_close_ends next (ok r, s) ends h = ends h
  after_close_ends next (err e, s) ends h = cc

  last_ends : (n : ℕ) → Http.give_up_or_retry {A = A} n n ≢ again
  last_ends n h = ground arith

  raise_ends : (next : Step A) (e : Error) → next ≡ raise e → next ≢ again
  raise_ends next e h k = cc

  handle_last : (n : ℕ) (o : Result A × S) → (Http.handle execute close n n o).0 ≢ again
  handle_last n (ok a, s) h = cc
  handle_last n (err authentication, s) h = cc
  handle_last n (err connect_error, s) h =
      after_close_ends _ (close s) (raise_ends _ smart_device refl) h
  handle_last n (err timeout_error, s) h =
      after_close_ends _ (close s) (raise_ends _ smart_device refl) h
  handle_last n (err x, s) h = after_close_ends _ (close s) (last_ends n) h

  -- A query is a run of at most `retry_count + 1` rounds, and the code behind the loop is not
  -- reached.
  pub query_loop-Run :
      (retry_count : ℕ) (s : S)
      → (k : ℕ) × (k ≤ retry_count + 1)
        × Run
            (Http.round execute close retry_count)
            0
            k
            s
            (Http.query_loop execute close retry_count s)
  unfolding Http.query_loop Http.round
  query_loop-Run n s =
      let (k, few, run) =
        for_retry-Run (Http.round execute close n) (Http.unreachable execute close) n
          (λ t. handle_last n (execute t)) n 0 s (omega arith) in
      (k, omega arith, run)

  -- Whatever the transport raises, a query raises AuthenticationException, or closes the
  -- transport and then raises SmartDeviceException or, if closing it raises, what that raises.
  pub query_loop-IsSettled :
      (retry_count : ℕ) (s : S) → IsSettled (Http.query_loop execute close retry_count s)
  query_loop-IsSettled n s =
      Run-induction (λ r t. Unit {0}) IsSettled (λ r t _ _. tt) (λ r t a _ e. tt)
        (λ r t x _ e. raised r t x e) tt (query_loop-Run n s).2
    where
      raised :
          (r : ℕ) (t : S) (x : Error)
          → (Http.round execute close n r t).0 ≡ raise x
          → IsSettled (err x, (Http.round execute close n r t).1)
      raised r t x e = unfold Http.round in handle_raises n r (execute t) x (unfold Http.round in e)

  round-ok :
      (n r : ℕ) (s : S) {a : A}
      → (execute s).0 ≡ ok a
      → Http.round execute close n r s ≡ (return a, (execute s).1)
  unfolding Http.round
  round-ok n r s h = ground arith

  round-retried :
      (n r : ℕ) (s : S) (e : Error) {t : S}
      → (execute s).0 ≡ err e
      → IsRetried e
      → r < n
      → close (execute s).1 ≡ (ok tt, t)
      → Http.round execute close n r s ≡ (again, t)
  unfolding Http.round
  round-retried n r s e {t} h retried more closed = by_error (execute s) e h retried closed
    where
      by_error :
          (o : Result A × S) (e : Error)
          → o.0 ≡ err e
          → IsRetried e
          → close o.1 ≡ (ok tt, t)
          → Http.handle execute close n r o ≡ (again, t)
      by_error (ok a, u) e h retried closed = cc
      by_error (err close_error, u) e h retried closed = ground arith
      by_error (err x, u) e h retried closed = ground arith

  -- A wrong password is reported at once: the first AuthenticationException ends the query, and
  -- the transport is not closed.
  pub query_loop-authentication :
      (retry_count : ℕ) (s : S)
      → (execute s).0 ≡ err authentication
      → Http.query_loop execute close retry_count s ≡ (err authentication, (execute s).1)
  unfolding Http.query_loop
  query_loop-authentication n s h =
      for_retry-raise (Http.round execute close n) (Http.unreachable execute close) n 0 s
        (unfold Http.round in ground arith)

  -- A device that cannot be reached is not asked again: the first connect error or timeout
  -- closes the transport and ends the query, whatever the retry count, if closing does not raise.
  pub query_loop-unreachable :
      (retry_count : ℕ) (s : S) (e : Error) {t : S}
      → (execute s).0 ≡ err e
      → (e ≡ connect_error) ⊎ (e ≡ timeout_error)
      → close (execute s).1 ≡ (ok tt, t)
      → Http.query_loop execute close retry_count s ≡ (err smart_device, t)
  unfolding Http.query_loop
  query_loop-unreachable n s e h kind closed =
      for_retry-raise (Http.round execute close n) (Http.unreachable execute close) n 0 s
        (unfold Http.round in ground arith)

  -- After any other failure, with a retry left and if closing does not raise, the next round is made with
  -- the transport closed; if that one returns, the query returns what it returns.
  pub query_loop-retries :
      (retry_count : ℕ) (s : S) (e : Error) (a : A) {t : S}
      → 0 < retry_count
      → (execute s).0 ≡ err e
      → IsRetried e
      → close (execute s).1 ≡ (ok tt, t)
      → (execute t).0 ≡ ok a
      → Http.query_loop execute close retry_count s ≡ (ok a, (execute t).1)
  unfolding Http.query_loop
  query_loop-retries zero s e a some_left h retried closed next = absurd (omega arith)
  query_loop-retries (suc n) s e a {t} some_left h retried closed next =
      let loop = for_retry (Http.round execute close (suc n)) (Http.unreachable execute close) in
      let first : loop (suc (suc n)) 0 s ≡ loop (suc n) (0 + 1) t =
        for_retry-again _ _ (suc n) 0 s
          (round-retried (suc n) 0 s e h retried (omega arith) closed) in
      first ∙ for_retry-return _ _ n (0 + 1) t (round-ok (suc n) (0 + 1) t next)
