-- ===== src/Snowflake/Tests.antt =====
-- The generator on a clock that stands still for two readings.
use python_kasa.Prelude.{ℕ, ◌+◌, ◌*◌, ◌/◌, ◌^◌, ◌≡◌, refl, true, some, arith}
use python_kasa.Prelude.Int.{ℤ, pos, ltb_ℤ}
use python_kasa.Exec.{Result, ok}
use python_kasa.Snowflake.{SnowflakeId, epoch, compose, generate_id}
use python_kasa.Snowflake.Fields.{id_number}
use python_kasa.Snowflake.Laws.{IsIssued, generate_id-increases, generate_id_total}

abbrev clock : ℕ → ℕ
clock n = epoch + 100 + n / 2

-- In its last sequence number, at the clock's first reading.
abbrev full : SnowflakeId
full = record {
  worker_id = 1;
  data_center_id = 1;
  sequence = 4095;
  last_timestamp = pos (epoch + 100);
  reads = 1;
}

-- The sequence number comes round, so the generator waits for the next millisecond.
abbrev waited : SnowflakeId
waited = record full { sequence = 0; last_timestamp = pos (epoch + 101); reads = 3 }

generate-full : generate_id clock 9 full ≡ some (ok (pos (101 * 2 ^ 22 + 2 ^ 17 + 2 ^ 12)), waited)
unfolding generate_id compose
generate-full = refl

full-IsIssued : IsIssued full (pos (id_number full (epoch + 100)))
full-IsIssued = record {
  range = omega arith;
  at = epoch + 100;
  last = refl;
  late = omega arith;
  value = refl;
}

generate_id-increases_example :
    IsIssued waited (pos (101 * 2 ^ 22 + 2 ^ 17 + 2 ^ 12))
    × (ltb_ℤ (pos (id_number full (epoch + 100))) (pos (101 * 2 ^ 22 + 2 ^ 17 + 2 ^ 12)) ≡ true)
generate_id-increases_example =
    generate_id-increases clock 9 full waited (pos (id_number full (epoch + 100)))
      (pos (101 * 2 ^ 22 + 2 ^ 17 + 2 ^ 12)) full-IsIssued generate-full

abbrev ahead : SnowflakeId
ahead = record full { last_timestamp = pos (epoch + 200) }

generate_id_total_example : (out : Result ℤ × SnowflakeId) × (generate_id clock 9 full ≡ some out)
generate_id_total_example = generate_id_total clock 9 3 full (omega arith) refl
