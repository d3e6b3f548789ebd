-- ===== src/Modules/Rules.antt =====
-- `RuleModule` (kasa/modules/rulemodule.py), which `Antitheft`, `Countdown` and `Schedule` inherit
-- unchanged. A pydantic model reads a rule: its parser is a parameter.
use python_kasa.Prelude.{Bool, List, [], ◌∷◌, Option, String}
use python_kasa.Prelude.Int.{ℤ, pos, negsuc}
use python_kasa.Exec.{Result, ok, err, ◌>>=◌}
use python_kasa.Exec.State.{Exec}
use python_kasa.Json.{Value, null, flag, str, obj, Items, nil, cons, Fields, end, field, index}
use python_kasa.Modules
use python_kasa.Modules.{Host, data_at, call, query_for_command, add_query}
use python_kasa.Modules.Usage.{entries_of}

pub data Action : Type 0 where
  disabled turn_off turn_on unknown : Action

abbrev pub action_value : Action → ℤ
action_value disabled = negsuc 0
action_value turn_off = pos 0
action_value turn_on = pos 1
action_value unknown = pos 2

pub data TimeOption : Type 0 where
  disabled enabled at_sunrise at_sunset : TimeOption

abbrev pub time_option_value : TimeOption → ℤ
time_option_value disabled = negsuc 0
time_option_value enabled = pos 0
time_option_value at_sunrise = pos 1
time_option_value at_sunset = pos 2

pub record Rule : Type 0 where
  pub id : String
  pub name : String
  pub enable : Bool
  pub wday : List ℤ
  pub repeat : Bool
  pub sact : Option Action
  pub stime_opt : TimeOption
  pub smin : ℤ
  pub eact : Option Action
  pub etime_opt : TimeOption
  pub emin : ℤ
  pub s_light : Option Fields

module _ (parse_rule : Value → Result Rule) where
  unfoldable pub parse_rules : Items → Result (List Rule)
  parse_rules nil = ok []
  parse_rules (cons x xs) = do rule ← parse_rule x; rest ← parse_rules xs; ok (rule ∷ rest)

  unfoldable pub read_rules : String → Value → Result (List Rule)
  unfolding parse_rules data_at
  read_rules name last_update = do
    found ← data_at name "get_rules" last_update
    raw ← index "rule_list" found
    entries ← entries_of raw
    parse_rules entries

  -- `except Exception: return []`
  abbrev or_no_rules : Result (List Rule) → List Rule
  or_no_rules (ok found) = found
  or_no_rules (err e) = []

  -- The property `rules`. Its handler reads `self.data` for the log message, outside the `try`.
  unfoldable pub rules : String → Value → Result (List Rule)
  unfolding read_rules
  rules name last_update = elim (read_rules name last_update) [
    | ok found ↦ ok found
    | err e ↦ (do shown ← Modules.module_data name last_update; ok [])
  ]

module _ (host : Host) where
  open host use {State}

  -- `query`
  unfoldable pub rules_query : String → State → Result Value
  unfolding add_query query_for_command
  rules_query name s =
      add_query host name "get_next_action" null s
        (obj (query_for_command host name "get_rules" null s))

  -- `set_enabled`: the state itself is the argument of the command.
  unfoldable pub set_enabled : String → Bool → Exec State Value
  unfolding call
  set_enabled name state = call host name "set_overall_enable" (flag state)

  unfoldable pub delete_rule : String → Rule → Exec State Value
  unfolding call
  delete_rule name rule = call host name "delete_rule" (obj (field "id" (str rule.id) end))

  unfoldable pub delete_all_rules : String → Exec State Value
  unfolding call
  delete_all_rules name = call host name "delete_all_rules" null
