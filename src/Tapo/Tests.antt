-- ===== src/Tapo/Tests.antt =====
-- A plug whose device answers with the name of the method, and one that fails after three answers.
use python_kasa.Prelude.{ℕ, ◌+◌, ◌≡◌, refl, none, some, leb, if◌then◌else◌, ◌⊎◌, subst, ap}
use python_kasa.Prelude.Int.{pos, negsuc}
use python_kasa.Exec.{Error, Result, NoneType, ok, err, timeout_error, authentication}
use python_kasa.Exec.State.{◌>>=◌}
use python_kasa.Credentials.{blank}
use python_kasa.Http.Smart.{Request, method, dict}
use python_kasa.Json.{Value, null, num, str, obj, end, field, lookup, put, contains}
use python_kasa.Tapo
use python_kasa.Tapo.{TapoDevice, Protocol, State, fetch, set_device_info, alias, get_info}
use python_kasa.Tapo.Plug
use python_kasa.Tapo.Bulb.{is_dimmable, set_brightness, set_hsv, optional_int}
use python_kasa.Tapo.Laws.{IsMirrored, plug_update-IsMirrored, update-keeps}
use python_kasa.Tapo.Bounds.{InRange, InRange?, set_hsv-InRange, set_brightness-unchecked}

abbrev answer : Request → Value
answer (method m) = str m
answer (dict d) = obj d

abbrev naming : Protocol
naming = record { World = ℕ; query = λ request w. (ok (answer request), w + 1) }

abbrev failing : Protocol
failing = record {
  World = ℕ;
  query = λ request w. (if leb 3 w then err timeout_error else ok (answer request), w + 1);
}

abbrev fresh : TapoDevice
fresh = record {
  credentials = some blank;
  components = none;
  info = none;
  usage = none;
  time = none;
  data_ = none;
  discovery_info = null;
  energy = none;
  emeter = none;
}

abbrev fetched : TapoDevice
fetched = record fresh {
  components = some (str "component_nego");
  info = some (str "get_device_info");
  usage = some (str "get_device_usage");
  time = some (str "get_device_time");
  data_ = some (
      field "components" (str "component_nego") (
        field "info" (str "get_device_info") (
          field "usage" (str "get_device_usage") (
            field "time" (str "get_device_time") (
              field "energy" (str "get_energy_usage")
                (field "emeter" (str "get_current_power") end))))));
  energy = some (str "get_energy_usage");
  emeter = some (str "get_current_power");
}

updated_lem : Plug.update naming (fresh, 0) ≡ (ok tt, (fetched, 6))
unfolding Plug.update ◌>>=◌ put
updated_lem = refl

plug_update-IsMirrored_example : IsMirrored naming fetched
plug_update-IsMirrored_example =
    subst (λ (o : Result NoneType × State naming). IsMirrored naming o.1.0) updated_lem
      (plug_update-IsMirrored naming (fresh, 0)
        (ap (λ (o : Result NoneType × State naming). o.0) updated_lem))

update-keeps_example :
    (Tapo.update failing (record fresh { data_ = some end }, 0)).1.0.data_ ≡ some end
unfolding Tapo.update ◌>>=◌
update-keeps_example =
    update-keeps failing (record fresh { data_ = some end }, 0) timeout_error refl

nobody_lem :
    Tapo.update naming (record fresh { credentials = none }, 0)
    ≡ (err authentication, (record fresh { credentials = none }, 0))
unfolding Tapo.update ◌>>=◌
nobody_lem = refl

abbrev bulb : TapoDevice
bulb = record fresh {
  info = some (obj (field "hue" (num (pos 10)) (field "brightness" (num (pos 20)) end)));
}

set_hsv-InRange_example :
    ((e : Error) × (set_hsv naming (pos 361) (pos 5) none (bulb, 0) ≡ (err e, (bulb, 0))))
    ⊎ (InRange (pos 360) (pos 361)
        × InRange (pos 100) (pos 5)
        × InRange? none
        × (set_hsv naming (pos 361) (pos 5) none (bulb, 0)
            ≡ set_device_info naming
                (field "hue"
                  (num (pos 361))
                  (field "saturation" (num (pos 5)) (field "brightness" (optional_int none) end)))
                (bulb, 0)))
set_hsv-InRange_example = set_hsv-InRange naming (pos 361) (pos 5) none (bulb, 0)

set_brightness-unchecked_example :
    set_brightness naming (negsuc 4) (bulb, 0)
    ≡ set_device_info naming (field "brightness" (num (negsuc 4)) end) (bulb, 0)
unfolding is_dimmable contains lookup
set_brightness-unchecked_example = set_brightness-unchecked naming (negsuc 4) (bulb, 0) refl
