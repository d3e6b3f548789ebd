-- ===== src/Strip/Sums.antt =====
-- `merge_sums` (kasa/smartstrip.py) against its reference: a key has the sum of its values in all dicts,
-- in their order.
use python_kasa.Prelude.{
  ◌≡◌, refl, sym, ◌∙◌, ap, List, [], ◌∷◌, ◌++◌, Option, none, some, or_default, if◌then◌else◌, inl,
  inr, Bool-cases,
}
use python_kasa.Prelude.Int.{pos}
use mathlib.Core.List.{append_assoc}
use python_kasa.Numbers.{Number, float, Floats, add}
use python_kasa.Modules.Keys.{Key, same_key, same_key_iff, lookup, put, lookup-put}

abbrev pub zero_float : Number
zero_float = float (record { mantissa = pos 0; exponent = pos 0 })

-- All entries of the dicts, one dict after another.
abbrev pub all_entries : List (List (Key × Number)) → List (Key × Number)
all_entries [] = []
all_entries (d ∷ ds) = d ++ all_entries ds

abbrev pub values_at : Key → List (Key × Number) → List Number
values_at day [] = []
values_at day ((other, v) ∷ rest) =
    (if same_key other day then v ∷ [] else []) ++ values_at day rest

module _ (floats : Floats) where
  -- total_dict[day] += value, in a dict with the default 0.0
  abbrev pub add_at : Key → Number → List (Key × Number) → List (Key × Number)
  add_at day value total =
      put day (add floats (or_default (lookup day total) zero_float) value) total

  unfoldable pub add_dict : List (Key × Number) → List (Key × Number) → List (Key × Number)
  unfolding add
  add_dict [] total = total
  add_dict ((day, value) ∷ sum_dict) total = add_dict sum_dict (add_at day value total)

  unfoldable pub merge_into : List (List (Key × Number)) → List (Key × Number) → List (Key × Number)
  unfolding add_dict
  merge_into [] total = total
  merge_into (sum_dict ∷ dicts) total = merge_into dicts (add_dict sum_dict total)

  unfoldable pub merge_sums : List (List (Key × Number)) → List (Key × Number)
  unfolding merge_into
  merge_sums dicts = merge_into dicts []

  abbrev pub summed : Option Number → List Number → Option Number
  summed before [] = before
  summed before (v ∷ vs) = summed (some (add floats (or_default before zero_float) v)) vs

  add_at-lookup :
      (day other : Key) (v : Number) (total : List (Key × Number))
      → lookup day (add_at other v total)
        ≡ summed (lookup day total) (if same_key other day then v ∷ [] else [])
  add_at-lookup day other v total = elim (Bool-cases (same_key other day)) [
    | inl same ↦
        let e : other ≡ day = (same_key_iff other day).0 same in
        rw
          (
            lookup-put other day (add floats (or_default (lookup other total) zero_float) v) total,
            same,
          )
          (ap (λ (k : Key). some (add floats (or_default (lookup k total) zero_float) v)) e)
    | inr differs ↦
        rw
          (
            lookup-put other day (add floats (or_default (lookup other total) zero_float) v) total,
            differs,
          )
          refl
  ]

  summed-append :
      (before : Option Number) (us vs : List Number)
      → summed before (us ++ vs) ≡ summed (summed before us) vs
  summed-append before [] vs = refl
  summed-append before (u ∷ us) vs =
      summed-append (some (add floats (or_default before zero_float) u)) us vs

  add_dict-lookup :
      (day : Key) (d total : List (Key × Number))
      → lookup day (add_dict d total) ≡ summed (lookup day total) (values_at day d)
  unfolding add_dict
  add_dict-lookup day [] total = refl
  add_dict-lookup day ((other, v) ∷ d) total =
      add_dict-lookup day d (add_at other v total)
      ∙ ap (λ (t : Option Number). summed t (values_at day d)) (add_at-lookup day other v total)
      ∙ sym (
          summed-append (lookup day total) (if same_key other day then v ∷ [] else [])
            (values_at day d))

  values_at-append :
      (day : Key) (d e : List (Key × Number))
      → values_at day (d ++ e) ≡ values_at day d ++ values_at day e
  values_at-append day [] e = refl
  values_at-append day ((other, v) ∷ d) e =
      rw (values_at-append day d e) (sym (append_assoc _ (values_at day d) (values_at day e)))

  merge_into-lookup :
      (day : Key) (ds : List (List (Key × Number))) (total : List (Key × Number))
      → lookup day (merge_into ds total)
        ≡ summed (lookup day total) (values_at day (all_entries ds))
  unfolding merge_into
  merge_into-lookup day [] total = refl
  merge_into-lookup day (d ∷ ds) total =
      merge_into-lookup day ds (add_dict d total)
      ∙ ap (λ (t : Option Number). summed t (values_at day (all_entries ds)))
          (add_dict-lookup day d total)
      ∙ sym (summed-append (lookup day total) (values_at day d) (values_at day (all_entries ds)))
      ∙ ap (summed (lookup day total)) (sym (values_at-append day d (all_entries ds)))

  -- In the merged statistics a day has the sum of what all sockets have for it, from 0.0 on and in their
  -- order, and a day that no socket has is missing.
  pub merge_sums-lookup :
      (day : Key) (ds : List (List (Key × Number)))
      → lookup day (merge_sums ds) ≡ summed none (values_at day (all_entries ds))
  unfolding merge_sums lookup
  merge_sums-lookup day ds = merge_into-lookup day ds []
