-- ===== src/Snowflake/Fields.antt =====
-- An id as a number: the fields are disjoint, so `|` is a sum.
use python_kasa.Prelude.{ℕ, ◌+◌, ◌-◌, ◌*◌, ◌/◌, ◌%◌, ◌^◌, ◌≤◌, ◌<◌, ◌≡◌, ap, bit_or, arith}
use python_kasa.Prelude.Int.{pos, sub_ℕ}
use python_kasa.Prelude.Bits.{bit_or_sum}
use python_kasa.Snowflake.{SnowflakeId, epoch, compose}

-- The numbers of a generator fit their fields.
pub record IsInRange (g : SnowflakeId) : Type 0 where
  pub worker : g.worker_id < 2 ^ 5
  pub data_center : g.data_center_id < 2 ^ 5
  pub sequence : g.sequence < 2 ^ 12

unfoldable pub id_number : SnowflakeId → ℕ → ℕ
id_number g t = (t - epoch) * 2 ^ 22 + g.data_center_id * 2 ^ 17 + g.worker_id * 2 ^ 12 + g.sequence

or_fields :
    (x d w s : ℕ)
    → d < 2 ^ 5
    → w < 2 ^ 5
    → s < 2 ^ 12
    → bit_or (bit_or (bit_or (x * 2 ^ 22) (d * 2 ^ 17)) (w * 2 ^ 12)) s
      ≡ x * 2 ^ 22 + d * 2 ^ 17 + w * 2 ^ 12 + s
or_fields x d w s hd hw hs =
    let upper : x * 2 ^ 22 + d * 2 ^ 17 ≡ (x * 32 + d) * 2 ^ 17 = omega arith in
    let lower : (x * 32 + d) * 2 ^ 17 + w * 2 ^ 12 ≡ ((x * 32 + d) * 32 + w) * 2 ^ 12 =
      omega arith in
    rw (bit_or_sum 22 x (d * 2 ^ 17) (omega arith), upper)
      (rw (bit_or_sum 17 (x * 32 + d) (w * 2 ^ 12) (omega arith), lower)
        (rw (bit_or_sum 12 ((x * 32 + d) * 32 + w) s hs) (omega arith)))

-- From the epoch on, an id is the sum of its four fields.
pub compose-eq-id_number :
    (g : SnowflakeId) (t : ℕ) → IsInRange g → epoch ≤ t → compose g t ≡ pos (id_number g t)
unfolding compose id_number
compose-eq-id_number g t h late =
    let after : sub_ℕ t epoch ≡ pos (t - epoch) = ground arith in
    rw after (
      ap pos (
        or_fields (t - epoch) g.data_center_id g.worker_id g.sequence h.data_center h.worker
          h.sequence))

-- The four fields can be read back from an id.
pub id_number_fields :
    (g : SnowflakeId) (t : ℕ)
    → IsInRange g
    → (id_number g t / 2 ^ 22 ≡ t - epoch)
      × (id_number g t / 2 ^ 17 % 2 ^ 5 ≡ g.data_center_id)
      × (id_number g t / 2 ^ 12 % 2 ^ 5 ≡ g.worker_id)
      × (id_number g t % 2 ^ 12 ≡ g.sequence)
unfolding id_number
id_number_fields g t h = (omega arith, omega arith, omega arith, omega arith)
