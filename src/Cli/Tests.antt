-- ===== src/Cli/Tests.antt =====
-- A network with one lamp that answers the third discovery, and choices of a device.
use python_kasa.Prelude.{
  ℕ, ◌+◌, ◌≡◌, refl, ◌==◌, [], ◌∷◌, Option, none, some, String, List, if◌then◌else◌,
}
use python_kasa.Prelude.Int.{pos}
use python_kasa.Exec.{Result, ok}
use python_kasa.Exec.State.{◌>>=◌}
use python_kasa.DeviceTypes.{bulb, from_value, value}
use python_kasa.Lights.Reports.{SmartBulbPreset}
use python_kasa.Cli.{
  Candidate, Options, find_host_from_alias, attempts_for, matching_host, choose, bad_usage,
  discover_all, connect,
}
use python_kasa.Cli.Bulbs.{modify_preset}

abbrev lamp : Candidate
lamp = record { alias = ok "lamp"; host = "10.0.0.2" }

abbrev third : ℕ → Result (List Candidate) × ℕ
third n = (ok (if n == 2 then lamp ∷ [] else []), n + 1)

-- Of three attempts two are made.
attempts_lem : find_host_from_alias (λ s. s) third 3 "lamp" 0 ≡ (ok none, 2)
unfolding find_host_from_alias attempts_for matching_host ◌>>=◌
attempts_lem = refl

found_lem : find_host_from_alias (λ s. s) third 4 "lamp" 0 ≡ (ok (some "10.0.0.2"), 3)
unfolding find_host_from_alias attempts_for matching_host ◌>>=◌
found_lem = refl

abbrev nobody : String → ℕ → Result (Option String) × ℕ
nobody alias n = (ok none, n)

abbrev plain : Options
plain = record { host = none; alias = none; type = none; username = none; password = none }

all_lem : choose nobody plain 0 ≡ (ok discover_all, 0)
unfolding choose
all_lem = refl

half_lem : choose nobody (record plain { password = some "secret" }) 0 ≡ (ok bad_usage, 0)
unfolding choose
half_lem = refl

typed_lem :
    choose nobody (record plain { host = some "10.0.0.2"; type = some "bulb" }) 0
    ≡ (ok (connect "10.0.0.2" bulb), 0)
unfolding choose from_value value
typed_lem = refl

abbrev warm : SmartBulbPreset
warm = record {
  preset_index = pos 0;
  brightness = pos 50;
  hue = some (pos 0);
  saturation = some (pos 0);
  color_temp = some (pos 2700);
  custom = none;
  id = none;
  mode = none;
}

modified_lem :
    modify_preset (some (pos 80)) none none (some (pos 3000)) warm
    ≡ record warm { brightness = pos 80; color_temp = some (pos 3000) }
unfolding modify_preset
modified_lem = refl
