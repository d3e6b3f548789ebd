-- ===== src/Lights/Echo.antt =====
-- A bulb that takes over the state it is sent reports what was set (kasa/smartbulb.py), and the mode of a
-- turn-on behaviour follows its preset.
use python_kasa.Prelude.{
  Bool, String, not, ap, sym, ◌∙◌, ◌≡◌, refl, true, false, Option, none, some, arith,
}
use python_kasa.Prelude.Int.{ℤ, pos, between_ℤ}
use python_kasa.Exec.{Result, ok, smart_device, value_error, raise_if, >>=-eq-ok, ok-injective}
use python_kasa.Json.Laws.{lookup-put, lookup-put_self}
use python_kasa.Lights.{command, sys_info_flag}
use python_kasa.Device.Answers.{query_helper}
use python_kasa.Json.{Value, num, obj, Fields, lookup, put, index}
use python_kasa.Device.{SmartDevice, Protocol, State, is_none, requires_update}
use python_kasa.Device.Properties.{sys_info}
use python_kasa.Lights.Bulb.{
  light_state_request, put_some, hs_state, is_color, check_hsv, check_value, set_hsv, light_service,
}
use python_kasa.Lights.Reports.{
  hsv, is_on, light_state, current_state, BehaviorMode, mode_for, new_behavior, assign_preset,
  assign_mode,
}

-- The state that `set_hsv` sends.
abbrev pub sent_hsv : ℤ → ℤ → ℤ → Option ℤ → Fields
sent_hsv hue saturation value transition =
    light_state_request (put_some "brightness" (some value) (hs_state hue saturation)) transition

sent_hsv-fields :
    (hue saturation value : ℤ) (transition : Option ℤ)
    → let d = sent_hsv hue saturation value transition in
      (lookup "on_off" d ≡ some (num (pos 1)))
      × (lookup "hue" d ≡ some (num hue))
      × (lookup "saturation" d ≡ some (num saturation))
      × (lookup "brightness" d ≡ some (num value))
unfolding light_state_request lookup put
sent_hsv-fields hue saturation value none = (refl, refl, refl, refl)
sent_hsv-fields hue saturation value (some t) = (refl, refl, refl, refl)

-- If an updated bulb with color has the state that `set_hsv` sent, it is on, and its hue, saturation and
-- value are those that were set.
hsv-sent_hsv :
    (s : SmartDevice) (d : Fields) (hue saturation value : ℤ) (transition : Option ℤ)
    → is_none s.last_update ≡ false
    → s.sys_info ≡ obj d
    → is_color s ≡ ok true
    → lookup "light_state" d ≡ some (obj (sent_hsv hue saturation value transition))
    → (is_on s ≡ ok true) × (hsv s ≡ ok (num hue, num saturation, num value))
unfolding is_on hsv light_state sys_info current_state requires_update index
hsv-sent_hsv s d hue saturation value transition known shape color reported =
    let (on, h, sat, v) = sent_hsv-fields hue saturation value transition in ground arith

-- What `set_hsv` sends if its checks pass, and that the device has color then.
check_hsv-eq-ok :
    (hue saturation value : ℤ) (transition : Option ℤ) (s : SmartDevice)
    {p : String × String × Value}
    → check_hsv hue saturation (some value) transition s ≡ ok p
    → (is_color s ≡ ok true)
      × (p ≡ (
        light_service,
        "transition_light_state",
        obj (sent_hsv hue saturation value transition),
      ))
unfolding check_hsv
check_hsv-eq-ok hue saturation value transition s h =
    let (_, _, h1) = >>=-eq-ok (requires_update "set_hsv" s) _ h in
    let (color, e2, h2) = >>=-eq-ok (is_color s) _ h1 in
    let (_, e3, h3) = >>=-eq-ok (raise_if (not color) smart_device) _ h2 in
    let (_, _, h4) =
      >>=-eq-ok (raise_if (not (between_ℤ (pos 0) hue (pos 360))) value_error) _ h3 in
    let (_, _, h5) =
      >>=-eq-ok (raise_if (not (between_ℤ (pos 0) saturation (pos 100))) value_error) _ h4 in
    let (_, _, h6) = >>=-eq-ok (check_value (some value)) _ h5 in
    let colored : color ≡ true = ground arith in
    (e2 ∙ ap (λ (b : Bool). ok b) colored, sym (ok-injective h6))

-- The device after it has taken over a light state: an update reads this state and leaves the rest.
abbrev pub taking_over : Fields → Fields → SmartDevice → SmartDevice
taking_over state d s = record s { sys_info = obj (put "light_state" (obj state) d) }

taking_over-is_color :
    (state d : Fields) (s : SmartDevice)
    → is_none s.last_update ≡ false
    → s.sys_info ≡ obj d
    → is_color s ≡ ok true
    → is_color (taking_over state d s) ≡ ok true
unfolding sys_info_flag requires_update index
taking_over-is_color state d s known shape color =
    ground (arith, lookup-put "light_state" "is_color" (obj state) d)

command-sent :
    (protocol : Protocol) (check : SmartDevice → Result (String × String × Value))
    (s : State protocol) (target cmd : String) (arg : Value)
    → check s.0 ≡ ok (target, cmd, arg)
    → command protocol check s ≡ query_helper protocol target cmd arg none s
unfolding command
command-sent protocol check s target cmd arg h = ground arith

-- If the checks of `set_hsv` pass for an updated bulb, it sends one light state, and once the bulb has taken
-- that over it reports that it is on, with the hue, saturation and value that were set.
pub hsv-set_hsv :
    (protocol : Protocol) (s : State protocol) (d : Fields) (hue saturation value : ℤ)
    (transition : Option ℤ) {p : String × String × Value}
    → is_none s.0.last_update ≡ false
    → s.0.sys_info ≡ obj d
    → check_hsv hue saturation (some value) transition s.0 ≡ ok p
    → (state : Fields) × (set_hsv protocol hue saturation (some value) transition s
        ≡ query_helper protocol light_service "transition_light_state" (obj state) none s)
      × (is_on (taking_over state d s.0) ≡ ok true)
      × (hsv (taking_over state d s.0) ≡ ok (num hue, num saturation, num value))
unfolding set_hsv
hsv-set_hsv protocol s d hue saturation value transition known shape passed =
    let state = sent_hsv hue saturation value transition in
    let (color, sends) = check_hsv-eq-ok hue saturation value transition s.0 passed in
    let changed = put "light_state" (obj state) d in
    let (on, shown) =
      hsv-sent_hsv (taking_over state d s.0) changed hue saturation value transition known refl
        (taking_over-is_color state d s.0 known shape color)
        (lookup-put_self "light_state" (obj state) d) in
    let sent =
      command-sent protocol (check_hsv hue saturation (some value) transition) s light_service
        "transition_light_state" (obj state) (passed ∙ ap (λ q. ok q) sends) in
    (state, sent, on, shown)

-- Whatever is assigned to a behaviour, its mode is that of a preset exactly if it has one.
pub new_behavior-mode :
    (preset other : Option ℤ) (mode third : BehaviorMode)
    → let b = assign_mode third (assign_preset other (new_behavior preset mode)) in
      (b.preset ≡ other) × (b.mode ≡ mode_for other)
unfolding new_behavior assign_preset assign_mode
new_behavior-mode preset other mode third = (refl, refl)
