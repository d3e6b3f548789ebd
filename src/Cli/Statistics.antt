-- ===== src/Cli/Statistics.antt =====
-- The commands for the statistics of energy and of usage, and for the rules of the schedule
-- (kasa/cli.py).
use python_kasa.Prelude.{
  Bool, true, false, List, [], ◌∷◌, Option, none, some, String, ◌=s=◌, if◌then◌else◌,
}
use python_kasa.Prelude.Int.{ℤ}
use python_kasa.Exec.{Result, NoneType, ok}
use python_kasa.Exec.State.{Exec, pure, lift, ◌>>=◌}
use python_kasa.Json.{Value}
use python_kasa.Modules.Rules.{Rule}
use python_kasa.Cli.{Reply, refused, sending}

-- A year, or a month of a year, as the options give it.
pub record Month : Type 0 where
  pub year : ℤ
  pub month : ℤ

-- The statistics of one kind: a summary that is known, two calls for the details and one that erases.
pub record Records : Type 1 where
  pub World : Type 0
  pub Summary : Type 0
  pub Details : Type 0
  pub summary : Result Summary
  pub monthly : ℤ → World → Result Details × World
  pub daily : Month → World → Result Details × World
  pub erase : World → Result Value × World

-- What such a command returns.
pub data Report (S D : Type 0) : Type 0 where
  no_emeter : Report S D
  erased : Value → Report S D
  details : D → Report S D
  current : S → Report S D

module _ (records : Records) where
  open records use {World, Summary, Details, summary, monthly, daily, erase}

  abbrev detailed : Exec World Details → Exec World (Report Summary Details)
  detailed m = do usage_data ← m; pure (details usage_data)

  -- `usage`, and `emeter` for a device that has one: erasing goes before a year, and a year before a
  -- month.
  unfoldable pub usage : Option ℤ → Option Month → Bool → Exec World (Report Summary Details)
  usage year month true = do answer ← erase; pure (erased answer)
  usage (some year) month false = detailed (monthly year)
  usage none (some month) false = detailed (daily month)
  usage none none false = do s ← lift summary; pure (current s)

  unfoldable pub emeter :
      Result Bool → Option ℤ → Option Month → Bool → Exec World (Report Summary Details)
  unfolding usage
  emeter has_emeter year month erase_all = do
    metered ← lift has_emeter
    (λ w. if metered then usage year month erase_all w else (ok no_emeter, w))

-- next(filter(…), None)
abbrev pub find_rule : String → List Rule → Option Rule
find_rule id [] = none
find_rule id (rule ∷ rules) = if rule.id =s= id then some rule else find_rule id rules

module _ {W : Type 0} (rules : Result (List Rule)) (delete : Rule → Exec W Value) where
  abbrev delete_found : Option Rule → Exec W (Reply NoneType Value)
  delete_found none = pure refused
  delete_found (some rule) = sending (delete rule)

  unfoldable pub delete_rule : String → Exec W (Reply NoneType Value)
  delete_rule id = do found ← lift rules; delete_found (find_rule id found)
