-- ===== src/Cli.antt =====
-- The decisions of the command line (kasa/cli.py): which device a command is for, and which call it
-- makes. What is printed is left out, and so is what `discover` and `--help` return before a device is
-- chosen; the devices are an interface.
pub mod Bulbs
pub mod Statistics
pub mod Targets
mod Tests
use python_kasa.Prelude.{
  ℕ, zero, suc, ◌-◌, ◌≡◌, Bool, true, false, not, ◌&&◌, ◌||◌, List, [], ◌∷◌, Option, none, some,
  String, ◌=s=◌, is_some, if◌then◌else◌,
}
use python_kasa.Exec.{Error, Result, NoneType, ok, err, ◌>>=◌ as bind}
use python_kasa.Exec.State.{Exec, pure, lift, ◌>>=◌, ◌>>◌}
use python_kasa.DeviceTypes.{DeviceType, from_value}
use python_kasa.Credentials.{Credentials}

-- What a command does: it tells that it cannot act, raises for its arguments, returns what is known, or
-- makes a call.
pub data Reply (A B : Type 0) : Type 0 where
  refused misused : Reply A B
  shown : A → Reply A B
  sent : B → Reply A B

abbrev pub showing : {A B W : Type 0} → Result A → Exec W (Reply A B)
showing r = do a ← lift r; pure (shown a)

abbrev pub sending : {A B W : Type 0} → Exec W B → Exec W (Reply A B)
sending m = do b ← m; pure (sent b)

-- A command for devices with some ability: without it, it is refused.
abbrev pub if_able : {A B W : Type 0} → Result Bool → Exec W (Reply A B) → Exec W (Reply A B)
if_able able m = do is_able ← lift able; (λ w. if is_able then m w else (ok refused, w))

-- What discovery finds, as far as the search for an alias reads it.
pub record Candidate : Type 0 where
  pub alias : Result String
  pub host : String

module _ (lower : String → String) where
  -- The loop over the devices that were found.
  unfoldable pub matching_host : String → List Candidate → Result (Option String)
  matching_host alias [] = ok none
  matching_host alias (dev ∷ devs) = bind dev.alias λ (name : String).
      let rest = matching_host alias devs in
      if lower name =s= lower alias then ok (some dev.host) else rest

  module _ {W : Type 0} (discover : Exec W (List Candidate)) where
    unfoldable pub attempts_for : ℕ → String → Exec W (Option String)
    unfolding matching_host
    attempts_for zero alias = pure none
    attempts_for (suc n) alias = do
      found_devs ← discover
      found ← lift (matching_host alias found_devs)
      elim found [ some host ↦ pure (some host) | none ↦ attempts_for n alias ]

    -- range(1, attempts)
    unfoldable pub find_host_from_alias : ℕ → String → Exec W (Option String)
    unfolding attempts_for
    find_host_from_alias attempts alias = attempts_for (attempts - 1) alias

-- The options that choose a device.
pub record Options : Type 0 where
  pub host : Option String
  pub alias : Option String
  pub type : Option String
  pub username : Option String
  pub password : Option String

-- What `cli` does with them: it is wrong usage, the alias is not found, all devices are discovered, or
-- there is one device, of a known type or to be discovered.
pub data Choice : Type 0 where
  bad_usage not_found discover_all : Choice
  connect : String → DeviceType → Choice
  discover_single : String → Choice

-- bool(password) != bool(username)
abbrev pub is_given : Option String → Bool
is_given none = false
is_given (some s) = not (s =s= "")

abbrev pub is_half_given : Options → Bool
is_half_given o = if is_given o.password then not (is_given o.username) else is_given o.username

abbrev pub with_host : Options → Option String → Choice
with_host o none = discover_all
with_host o (some host) = elim o.type [
  | some t ↦ connect host (from_value t)
  | none ↦ discover_single host
]

abbrev pub checked : Options → Option String → Choice
checked o host = if is_half_given o then bad_usage else with_host o host

module _ {W : Type 0} (find_host : String → Exec W (Option String)) where
  abbrev pub by_alias : Options → Option String → Choice
  by_alias o none = not_found
  by_alias o (some host) = if host =s= "" then not_found else checked o (some host)

  unfoldable pub choose : Options → Exec W Choice
  choose o = elim (o.alias) [
    | none ↦ pure (checked o o.host)
    | some alias ↦ elim (o.host) [
      | some host ↦ pure bad_usage
      | none ↦ do host ← find_host alias; pure (by_alias o host)
    ]
  ]
