-- ===== src/Snowflake.antt =====
-- `SnowflakeId` (kasa/smartprotocol.py): request ids from the clock and a sequence number.
pub mod Fields
pub mod Laws
mod Tests
use python_kasa.Prelude.{
  ℕ, zero, suc, ◌+◌, ◌-◌, ◌*◌, ◌^◌, ◌||◌, Option, none, some, bit_and, bit_or, ◌==◌, ltb, leb,
  if◌then◌else◌,
}
use python_kasa.Prelude.Int.{ℤ, pos, negsuc, sub_ℕ, ltb_ℤ, leb_ℤ, eq_ℤ}
use python_kasa.Exec.{Result, ok, err, value_error}

abbrev pub epoch : ℕ
epoch = 1420041600000

abbrev pub worker_id_bits : ℕ
worker_id_bits = 5

abbrev pub data_center_id_bits : ℕ
data_center_id_bits = 5

abbrev pub sequence_bits : ℕ
sequence_bits = 12

-- `1 << n` is 2 ^ n.
abbrev pub max_worker_id : ℕ
max_worker_id = 2 ^ worker_id_bits - 1

abbrev pub max_data_center_id : ℕ
max_data_center_id = 2 ^ data_center_id_bits - 1

abbrev pub sequence_mask : ℕ
sequence_mask = 2 ^ sequence_bits - 1

-- `reads` is how many times the clock has been read.
pub record SnowflakeId : Type 0 where
  pub worker_id : ℕ
  pub data_center_id : ℕ
  pub sequence : ℕ
  pub last_timestamp : ℤ
  pub reads : ℕ

-- The second test of `__init__`, and the fields that it sets.
abbrev check_data_center : ℕ → ℤ → Result SnowflakeId
check_data_center worker_id (negsuc _) = err value_error
check_data_center worker_id (pos d) =
    if ltb max_data_center_id d
    then err value_error
    else ok (record {
      worker_id = worker_id;
      data_center_id = d;
      sequence = 0;
      last_timestamp = negsuc 0;
      reads = 0;
    })

-- `__init__`
pub init : ℤ → ℤ → Result SnowflakeId
init (negsuc _) data_center_id = err value_error
init (pos worker_id) data_center_id =
    if ltb max_worker_id worker_id
    then err value_error
    else check_data_center worker_id data_center_id

-- `x << n`
abbrev pub shift_left : ℤ → ℕ → ℤ
shift_left (pos x) n = pos (x * 2 ^ n)
shift_left (negsuc x) n = negsuc ((x + 1) * 2 ^ n - 1)

-- `x | r`, where a negative number has ones without end
abbrev pub bit_or_ℤ : ℤ → ℕ → ℤ
bit_or_ℤ (pos x) r = pos (bit_or x r)
bit_or_ℤ (negsuc x) r = negsuc (x - bit_and x r)

-- The expression that `generate_id` returns.
pub compose : SnowflakeId → ℕ → ℤ
compose g timestamp =
    bit_or_ℤ
      (bit_or_ℤ
        (bit_or_ℤ
          (shift_left (sub_ℕ timestamp epoch)
            (worker_id_bits + sequence_bits + data_center_id_bits))
          (g.data_center_id * 2 ^ (sequence_bits + worker_id_bits)))
        (g.worker_id * 2 ^ sequence_bits))
      g.sequence

-- The clock, as its successive readings in milliseconds.
module _ (now : ℕ → ℕ) where
  -- `while timestamp <= last_timestamp`; `none` when the fuel runs out
  pub wait_next_millis : ℕ → ℤ → ℕ → ℕ → Option (ℕ × ℕ)
  wait_next_millis zero last timestamp reads = none
  wait_next_millis (suc fuel) last timestamp reads =
      let rest = wait_next_millis fuel last (now reads) (reads + 1) in
      if leb_ℤ (pos timestamp) last then rest else some (timestamp, reads)

  -- The end of `generate_id`.
  abbrev pub issue : SnowflakeId → ℕ → Result ℤ × SnowflakeId
  issue g timestamp = (ok (compose g timestamp), record g { last_timestamp = pos timestamp })

  abbrev pub issue_after_wait : SnowflakeId → Option (ℕ × ℕ) → Option (Result ℤ × SnowflakeId)
  issue_after_wait g none = none
  issue_after_wait g (some (timestamp, reads)) = some (issue (record g { reads = reads }) timestamp)

  -- Within the same millisecond: count on, and wait when the sequence number comes round.
  abbrev pub same_millisecond : ℕ → ℕ → SnowflakeId → Option (Result ℤ × SnowflakeId)
  same_millisecond fuel timestamp g =
      let next = bit_and (g.sequence + 1) sequence_mask in
      let g' = record g { sequence = next } in
      if next == 0
      then issue_after_wait g' (wait_next_millis fuel g.last_timestamp (now g.reads) (g.reads + 1))
      else some (issue g' timestamp)

  pub generate_id : ℕ → SnowflakeId → Option (Result ℤ × SnowflakeId)
  unfolding wait_next_millis
  generate_id fuel g =
      let timestamp = now g.reads in
      let g' = record g { reads = g.reads + 1 } in
      if ltb_ℤ (pos timestamp) g.last_timestamp
      then some (err value_error, g')
      else if eq_ℤ (pos timestamp) g.last_timestamp
      then same_millisecond fuel timestamp g'
      else some (issue (record g' { sequence = 0 }) timestamp)
