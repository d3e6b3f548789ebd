-- ===== src/Snowflake/Laws.antt =====
-- Successive ids of one generator, and its waiting loop.
use python_kasa.Prelude.{
  ℕ, zero, suc, ◌+◌, ◌%◌, ◌^◌, ◌≤◌, ◌<◌, ◌≡◌, ◌≢◌, refl, ◌∙◌, ◌⊎◌, inl, inr, Option, none, some,
  true, bit_and, arith, ◌==◌, Bool-cases,
}
use python_kasa.Prelude.Int.{ℤ, pos, negsuc, leb_ℤ, ltb_ℤ, eq_ℤ, pos_part}
use python_kasa.Prelude.Bits.{bit_and_ones}
use python_kasa.Exec.{Result, ok, err, value_error}
use python_kasa.Snowflake.{
  SnowflakeId, epoch, sequence_mask, init, compose, wait_next_millis, issue, issue_after_wait,
  same_millisecond, generate_id,
}
use python_kasa.Snowflake.Fields.{IsInRange, id_number, compose-eq-id_number}

-- `__init__` accepts exactly the ids of 0 to 31, and what it makes is in range.
pub init_ok :
    (w d : ℕ)
    → w < 2 ^ 5
    → d < 2 ^ 5
    → (g : SnowflakeId) × (init (pos w) (pos d) ≡ ok g) × IsInRange g
unfolding init
init_ok w d hw hd = (
  record { worker_id = w; data_center_id = d; sequence = 0; last_timestamp = negsuc 0; reads = 0 },
  ground arith,
  omega arith,
)

-- `IsIssued g id`: the generator's latest id was `id`, at a time past the epoch.
pub record IsIssued (g : SnowflakeId) (id : ℤ) : Type 0 where
  pub range : IsInRange g
  pub at : ℕ
  pub last : g.last_timestamp ≡ pos at
  pub late : epoch ≤ at
  pub value : id ≡ pos (id_number g at)

module _ (now : ℕ → ℕ) where
  -- The loop stops when the clock has passed the last timestamp, if the fuel reaches that reading.
  pub wait_next_millis-some :
      (fuel k : ℕ) (last : ℤ) (timestamp reads : ℕ)
      → suc k < fuel
      → ltb_ℤ last (pos (now (reads + k))) ≡ true
      → (t r : ℕ) × (wait_next_millis now fuel last timestamp reads ≡ some (t, r))
  unfolding wait_next_millis
  wait_next_millis-some zero k last timestamp reads h later = absurd (omega arith)
  wait_next_millis-some (suc zero) k last timestamp reads h later = absurd (omega arith)
  wait_next_millis-some (suc (suc fuel)) zero last timestamp reads h later =
      let here : reads + zero ≡ reads = omega arith in
      let past : ltb_ℤ last (pos (now reads)) ≡ true = rw here at later in
      elim (Bool-cases (leb_ℤ (pos timestamp) last)) [
        | inl early ↦ (now reads, reads + 1, ground arith)
        | inr done ↦ (timestamp, reads, rw done)
      ]
  wait_next_millis-some (suc (suc fuel)) (suc k) last timestamp reads h later =
      let shift : reads + suc k ≡ reads + 1 + k = omega arith in
      let rest =
        wait_next_millis-some (suc fuel) k last (now reads) (reads + 1) (omega arith)
          (rw shift at later) in
      elim (Bool-cases (leb_ℤ (pos timestamp) last)) [
        | inl early ↦ rw early rest
        | inr done ↦ (timestamp, reads, rw done)
      ]

  abbrev IsLater : ℤ → Option (ℕ × ℕ) → Type 0
  IsLater last none = Unit
  IsLater last (some (t, r)) = ltb_ℤ last (pos t) ≡ true

  -- What the loop returns lies past the last timestamp.
  wait_next_millis-IsLater :
      (fuel : ℕ) (last : ℤ) (timestamp reads : ℕ)
      → IsLater last (wait_next_millis now fuel last timestamp reads)
  unfolding wait_next_millis
  wait_next_millis-IsLater zero last timestamp reads = tt
  wait_next_millis-IsLater (suc fuel) last timestamp reads =
      elim (Bool-cases (leb_ℤ (pos timestamp) last)) [
        | inl early ↦ rw early (wait_next_millis-IsLater fuel last (now reads) (reads + 1))
        | inr done ↦ rw done (ground arith)
      ]

  -- On to a later millisecond, or to the next sequence number of the same one.
  abbrev Advances : SnowflakeId → SnowflakeId → Type 0
  Advances g g' =
      (ltb_ℤ g.last_timestamp g'.last_timestamp ≡ true)
      ⊎ ((g.last_timestamp ≡ g'.last_timestamp) × (g'.sequence ≡ g.sequence + 1))

  -- What a call has done that returned.
  abbrev HasIssued : SnowflakeId → Option (Result ℤ × SnowflakeId) → Type 0
  HasIssued g (some (ok id, g')) =
      (g'.last_timestamp ≡ pos (pos_part g'.last_timestamp))
      × (id ≡ compose g' (pos_part g'.last_timestamp))
      × IsInRange g'
      × (g'.worker_id ≡ g.worker_id)
      × (g'.data_center_id ≡ g.data_center_id)
      × Advances g g'
  HasIssued g _ = Unit

  issue-HasIssued :
      (g : SnowflakeId) (s r t : ℕ)
      → IsInRange g
      → s < 2 ^ 12
      → (ltb_ℤ g.last_timestamp (pos t) ≡ true)
        ⊎ ((g.last_timestamp ≡ pos t) × (s ≡ g.sequence + 1))
      → HasIssued g (some (issue now (record g { sequence = s; reads = r }) t))
  unfolding compose
  issue-HasIssued g s r t range fits moved = (
    refl,
    refl,
    record { worker = range.worker; data_center = range.data_center; sequence = fits },
    refl,
    refl,
    moved,
  )

  issue_after_wait-HasIssued :
      (g : SnowflakeId) (s r : ℕ) (o : Option (ℕ × ℕ))
      → IsInRange g
      → s < 2 ^ 12
      → IsLater g.last_timestamp o
      → HasIssued g (issue_after_wait now (record g { sequence = s; reads = r }) o)
  issue_after_wait-HasIssued g s r none range fits later = tt
  issue_after_wait-HasIssued g s r (some (t, r')) range fits later =
      issue-HasIssued g s r' t range fits (inl later)

  same_millisecond-HasIssued :
      (fuel : ℕ) (g : SnowflakeId) (t r : ℕ)
      → IsInRange g
      → g.last_timestamp ≡ pos t
      → HasIssued g (same_millisecond now fuel t (record g { reads = r }))
  same_millisecond-HasIssued fuel g t r range same =
      let next = bit_and (g.sequence + 1) sequence_mask in
      let cut : next ≡ (g.sequence + 1) % 2 ^ 12 = bit_and_ones 12 (g.sequence + 1) in
      let fits : next < 2 ^ 12 = omega (arith, cut) in
      elim (Bool-cases (next == 0)) [
        | inl wrapped ↦ rw wrapped (
            issue_after_wait-HasIssued g next (r + 1)
              (wait_next_millis now fuel g.last_timestamp (now r) (r + 1)) range fits
              (wait_next_millis-IsLater fuel g.last_timestamp (now r) (r + 1)))
        | inr counted ↦ rw counted (
            issue-HasIssued g next r t range fits (inr (same, ground (arith, cut, range.sequence))))
      ]

  generate_id-HasIssued :
      (fuel : ℕ) (g : SnowflakeId) → IsInRange g → HasIssued g (generate_id now fuel g)
  unfolding generate_id
  generate_id-HasIssued fuel g range =
      let t = now g.reads in
      elim (Bool-cases (ltb_ℤ (pos t) g.last_timestamp)) [
        | inl back ↦ rw back tt
        | inr not_back ↦ rw not_back (elim (Bool-cases (eq_ℤ (pos t) g.last_timestamp)) [
          | inl same ↦
              rw same (same_millisecond-HasIssued fuel g t (g.reads + 1) range (ground arith))
          | inr new ↦
              rw new (issue-HasIssued g 0 (g.reads + 1) t range (omega arith) (inl (ground arith)))
        ])
      ]

  id_number-lt :
      (g g' : SnowflakeId) (t t' : ℕ)
      → IsInRange g
      → epoch ≤ t
      → g'.worker_id ≡ g.worker_id
      → g'.data_center_id ≡ g.data_center_id
      → (t < t') ⊎ ((t ≡ t') × (g'.sequence ≡ g.sequence + 1))
      → id_number g t < id_number g' t'
  unfolding id_number
  id_number-lt g g' t t' range late w d (inl later) = omega (arith, range.worker, range.data_center)
  id_number-lt g g' t t' range late w d (inr same) = omega arith

  advance :
      (g g' : SnowflakeId) (t t' : ℕ)
      → g.last_timestamp ≡ pos t
      → g'.last_timestamp ≡ pos t'
      → Advances g g'
      → (t < t') ⊎ ((t ≡ t') × (g'.sequence ≡ g.sequence + 1))
  advance g g' t t' e e' (inl later) = inl (ground arith)
  advance g g' t t' e e' (inr same) = inr (ground arith)

  -- From the epoch on, ids only grow: the id that a call returns is greater than the one before
  -- it, and the generator is again as after a call.
  pub generate_id-increases :
      (fuel : ℕ) (g g' : SnowflakeId) (previous id : ℤ)
      → IsIssued g previous
      → generate_id now fuel g ≡ some (ok id, g')
      → IsIssued g' id × (ltb_ℤ previous id ≡ true)
  generate_id-increases fuel g g' previous id issued h =
      let facts : HasIssued g (some (ok id, g')) =
        rw h at (generate_id-HasIssued fuel g issued.range) in
      let (last, value, range, w, d, moved) = facts in
      let t = pos_part g'.last_timestamp in
      let order = advance g g' issued.at t issued.last last moved in
      let late : epoch ≤ t = ground (arith, issued.late) in
      let number = compose-eq-id_number g' t range late in
      let less = id_number-lt g g' issued.at t issued.range issued.late w d order in
      (
        record { range = range; at = t; last = last; late = late; value = value ∙ number },
        ground (arith, issued.value),
      )

  -- A clock that has gone back makes the call raise ValueError and issue nothing.
  pub generate_id-backwards :
      (fuel : ℕ) (g : SnowflakeId)
      → ltb_ℤ (pos (now g.reads)) g.last_timestamp ≡ true
      → generate_id now fuel g ≡ some (err value_error, record g { reads = g.reads + 1 })
  unfolding generate_id
  generate_id-backwards fuel g back = ground arith

  -- Every call ends, once the clock passes the last timestamp at one of its next readings.
  pub generate_id_total :
      (fuel k : ℕ) (g : SnowflakeId)
      → suc k < fuel
      → ltb_ℤ g.last_timestamp (pos (now (g.reads + 1 + 1 + k))) ≡ true
      → (out : Result ℤ × SnowflakeId) × (generate_id now fuel g ≡ some out)
  unfolding generate_id
  generate_id_total fuel k g h later =
      let (t, r, e) =
        wait_next_millis-some fuel k g.last_timestamp (now (g.reads + 1)) (g.reads + 1 + 1) h
          later in
      settle (generate_id now fuel g) (ground (arith, e))
    where
      settle :
          (o : Option (Result ℤ × SnowflakeId))
          → o ≢ none
          → (out : Result ℤ × SnowflakeId) × (o ≡ some out)
      settle none h = absurd (h refl)
      settle (some out) h = (out, refl)
