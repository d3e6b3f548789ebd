-- ===== src/Lights/Laws.antt =====
-- What the commands of lights send, and what they refuse.
use python_kasa.Prelude.{
  ℕ, ◌≡◌, ◌⊎◌, true, false, not, Option, none, some, String, arith, List, [], ◌∷◌, All, refl, ap,
  ◌≤◌, ◌<◌,
}
use python_kasa.Prelude.Int.{ℤ, pos, negsuc, ◌≤ℤ◌, between_ℤ, ltb_ℤ}
use python_kasa.Exec.{Error, Result, ok, err, smart_device, value_error, raise_if, >>=-eq-ok}
use python_kasa.Json.{Value, num, real, obj, end, field, null, flag, str, arr, index}
use python_kasa.Device
use python_kasa.Device.{SmartDevice, Protocol, State, requires_update}
use python_kasa.Device.Answers.{query_helper}
use python_kasa.Device.Requests.{create_request}
use python_kasa.Lights
use python_kasa.Lights.{check_brightness, command}
use python_kasa.Lights.Bulb
use python_kasa.Lights.Bulb.{
  tplink_kelvin, find_range, range_of_model, light_state_request, turns_on, only_flags,
  on_by_default, put_some, is_color,
}
use python_kasa.Lights.Dimmer
use python_kasa.Lights.Dimmer.{dimmer_service}

module _ (protocol : Protocol) where
  -- A method whose checks fail sends nothing.
  command-refused :
      (check : SmartDevice → Result (String × String × Value)) (s : State protocol) (e : Error)
      → check s.0 ≡ err e
      → command protocol check s ≡ (err e, s)
  unfolding command
  command-refused check s e h = ground arith

  -- For an updated bulb with color, a hue beyond 360, or a saturation or a value beyond 100, or
  -- one below 0, raises ValueError, and nothing is sent to the bulb.
  pub set_hsv-out_of_range :
      (hue saturation : ℤ) (value transition : Option ℤ) (s : State protocol)
      → requires_update "set_hsv" s.0 ≡ ok tt
      → is_color s.0 ≡ ok true
      → (between_ℤ (pos 0) hue (pos 360) ≡ false)
        ⊎ (between_ℤ (pos 0) saturation (pos 100) ≡ false)
        ⊎ ((v : ℤ) × (value ≡ some v) × (between_ℤ (pos 0) v (pos 100) ≡ false))
      → Bulb.set_hsv protocol hue saturation value transition s ≡ (err value_error, s)
  unfolding Bulb.set_hsv
  set_hsv-out_of_range hue saturation value transition s known color wrong =
      command-refused (Bulb.check_hsv hue saturation value transition) s value_error
        (unfold Bulb.check_hsv in ground arith)

  -- For an updated bulb with color temperatures, one beyond the range of the model raises
  -- ValueError, and nothing is sent to the bulb.
  pub set_color_temp-out_of_range :
      (temp : ℤ) (brightness transition : Option ℤ) (s : State protocol) (lo hi : ℕ)
      → requires_update "set_color_temp" s.0 ≡ ok tt
      → Bulb.is_variable_color_temp s.0 ≡ ok true
      → Bulb.valid_temperature_range s.0 ≡ ok (lo, hi)
      → (ltb_ℤ temp (pos lo) ≡ true) ⊎ (ltb_ℤ (pos hi) temp ≡ true)
      → Bulb.set_color_temp protocol temp brightness transition s ≡ (err value_error, s)
  unfolding Bulb.set_color_temp
  set_color_temp-out_of_range temp brightness transition s lo hi known variable range wrong =
      command-refused (Bulb.check_color_temp temp brightness transition) s value_error
        (unfold Bulb.check_color_temp in ground arith)

coerced-range :
    (brightness : ℤ)
    → check_brightness brightness ≡ ok tt
    → (pos 1 ≤ℤ Dimmer.coerced brightness)
      × (Dimmer.coerced brightness ≤ℤ pos 100)
      × ((Dimmer.coerced brightness ≡ brightness)
          ⊎ ((brightness ≡ pos 0) × (Dimmer.coerced brightness ≡ pos 1)))
coerced-range (pos n) h = ground arith
coerced-range (negsuc n) h = ground arith

-- Where a dimmer is asked for a brightness, without a transition, it is one from 1 to 100: the
-- brightness that was given, or 1 for 0.
pub check_set_brightness-range :
    (brightness : ℤ) (s : SmartDevice) {target cmd : String} {arg : Value}
    → Dimmer.check_set_brightness brightness none s ≡ ok (target, cmd, arg)
    → (b : ℤ) × (arg ≡ obj (field "brightness" (num b) end))
      × (pos 1 ≤ℤ b)
      × (b ≤ℤ pos 100)
      × ((b ≡ brightness) ⊎ ((brightness ≡ pos 0) × (b ≡ pos 1)))
unfolding Dimmer.check_set_brightness
check_set_brightness-range brightness s h =
    let (_, _, h1) = >>=-eq-ok (requires_update "set_brightness" s) _ h in
    let (dimmable, _, h2) = >>=-eq-ok (Dimmer.is_dimmable s) _ h1 in
    let (_, _, h3) = >>=-eq-ok (raise_if (not dimmable) smart_device) _ h2 in
    let (_, fine, h4) = >>=-eq-ok (check_brightness brightness) _ h3 in
    let (least, most, same) = coerced-range brightness fine in
    (Dimmer.coerced brightness, ground arith, least, most, same)

find_range-bounds :
    (model : String) (ranges : List (String × ℕ × ℕ))
    → All (λ (r : String × ℕ × ℕ). (2500 ≤ r.1) × (r.1 < r.2) × (r.2 ≤ 9000)) ranges
    → let found = find_range model ranges in
      (2500 ≤ found.0) × (found.0 < found.1) × (found.1 ≤ 9000)
find_range-bounds model [] h = (omega arith, omega arith, omega arith)
find_range-bounds model ((prefix, lo, hi) ∷ rest) h =
    ground (arith, find_range-bounds model rest h.1)

range_of_model-bounds :
    (model : Value) {lo hi : ℕ}
    → range_of_model model ≡ ok (lo, hi)
    → (2500 ≤ lo) × (lo < hi) × (hi ≤ 9000)
range_of_model-bounds (str model) h =
    ground (arith, find_range-bounds model tplink_kelvin (ground arith))
range_of_model-bounds null h = cc
range_of_model-bounds (flag b) h = cc
range_of_model-bounds (num n) h = cc
range_of_model-bounds (real x) h = cc
range_of_model-bounds (arr xs) h = cc
range_of_model-bounds (obj d) h = cc

-- Whatever the model, the range of color temperatures is not empty and lies within 2500 to 9000
-- kelvin.
pub valid_temperature_range-bounds :
    (s : SmartDevice) {lo hi : ℕ}
    → Bulb.valid_temperature_range s ≡ ok (lo, hi)
    → (2500 ≤ lo) × (lo < hi) × (hi ≤ 9000)
unfolding Bulb.valid_temperature_range
valid_temperature_range-bounds s h =
    let (_, _, h1) = >>=-eq-ok (requires_update "valid_temperature_range" s) _ h in
    let (variable, _, h2) = >>=-eq-ok (Bulb.is_variable_color_temp s) _ h1 in
    let (_, _, h3) = >>=-eq-ok (raise_if (not variable) smart_device) _ h2 in
    let (info, _, h4) = >>=-eq-ok (Lights.guarded_sys_info s) _ h3 in
    let (model, _, h5) = >>=-eq-ok (index "model" info) _ h4 in range_of_model-bounds model h5

module _ (protocol : Protocol) where
  as_smart_device-state :
      (o : Result Value × State protocol) → (Device.as_smart_device protocol o).1 ≡ o.1
  as_smart_device-state (ok v, s) = refl
  as_smart_device-state (err e, s) = refl

  -- A command changes no field of the device.
  pub command-device :
      (check : SmartDevice → Result (String × String × Value)) (s : State protocol)
      → (command protocol check s).1.0 ≡ s.0
  unfolding command
  command-device check s = by_check (check s.0)
    where
      by_check :
          (r : Result (String × String × Value))
          → (elim r as (λ _. Result Value × State protocol) [
            | err e ↦ (err e, s)
            | ok (target, cmd, arg) ↦ query_helper protocol target cmd arg none s
          ]).1.0
            ≡ s.0
      by_check (err e) = refl
      by_check (ok (target, cmd, arg)) =
          unfold query_helper Device.ask in
          ap (λ (t : State protocol). t.0)
            (as_smart_device-state
              (Device.ask protocol (obj (create_request target cmd arg none)) s))
