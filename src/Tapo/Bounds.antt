-- ===== src/Tapo/Bounds.antt =====
-- What a Tapo bulb may be sent (kasa/tapo/tapobulb.py).
use python_kasa.Prelude.{◌≡◌, refl, true, Option, none, some, arith, ◌⊎◌, inl, inr, not}
use python_kasa.Prelude.Int.{ℤ, pos, ◌≤ℤ◌, between_ℤ}
use python_kasa.Exec.{Error, Result, ok, err, value_error, smart_device, >>=-eq-ok, raise_if}
use python_kasa.Json.{num, Fields, end, field}
use python_kasa.Tapo.{TapoDevice, Protocol, State, set_device_info}
use python_kasa.Tapo.Bulb.{
  hsv_params, set_hsv, set_brightness, is_color, is_dimmable, check_value, optional_int,
  send_checked,
}

abbrev pub InRange : ℤ → ℤ → Type 0
InRange top n = (pos 0 ≤ℤ n) × (n ≤ℤ top)

abbrev pub InRange? : Option ℤ → Type 0
InRange? none = Unit
InRange? (some v) = InRange (pos 100) v

check_value-InRange : (value : Option ℤ) → check_value value ≡ ok tt → InRange? value
check_value-InRange none h = tt
check_value-InRange (some v) h = ground arith

hsv_params-InRange :
    (hue saturation : ℤ) (value : Option ℤ) (d : TapoDevice) {params : Fields}
    → hsv_params hue saturation value d ≡ ok params
    → InRange (pos 360) hue
      × InRange (pos 100) saturation
      × InRange? value
      × (params
          ≡ field "hue"
              (num hue)
              (field "saturation" (num saturation) (field "brightness" (optional_int value) end)))
unfolding hsv_params
hsv_params-InRange hue saturation value d h =
    let (color, _, h1) = >>=-eq-ok (is_color d) _ h in
    let (_, _, h2) = >>=-eq-ok (raise_if (not color) smart_device) _ h1 in
    let (_, e3, h3) =
      >>=-eq-ok (raise_if (not (between_ℤ (pos 0) hue (pos 360))) value_error) _ h2 in
    let (_, e4, h4) =
      >>=-eq-ok (raise_if (not (between_ℤ (pos 0) saturation (pos 100))) value_error) _ h3 in
    let (_, e5, h5) = >>=-eq-ok (check_value value) _ h4 in
    (ground arith, ground arith, check_value-InRange value e5, ground arith)

module _ (protocol : Protocol) where
  -- A Tapo bulb is either sent nothing by `set_hsv`, which raises then, or a hue of at most 360, a
  -- saturation of at most 100 and, if a value is given, one of at most 100.
  pub set_hsv-InRange :
      (hue saturation : ℤ) (value : Option ℤ) (s : State protocol)
      → ((e : Error) × (set_hsv protocol hue saturation value s ≡ (err e, s)))
        ⊎ (InRange (pos 360) hue
            × InRange (pos 100) saturation
            × InRange? value
            × (set_hsv protocol hue saturation value s
                ≡ set_device_info protocol
                    (field "hue" (num hue) (
                      field "saturation"
                        (num saturation)
                        (field "brightness" (optional_int value) end)))
                    s))
  unfolding send_checked set_hsv
  set_hsv-InRange hue saturation value s = by_check (hsv_params hue saturation value s.0) refl
    where
      by_check :
          (r : Result Fields)
          → hsv_params hue saturation value s.0 ≡ r
          → ((e : Error) × (set_hsv protocol hue saturation value s ≡ (err e, s)))
            ⊎ (InRange (pos 360) hue
                × InRange (pos 100) saturation
                × InRange? value
                × (set_hsv protocol hue saturation value s
                    ≡ set_device_info protocol
                        (field "hue" (num hue) (
                          field "saturation"
                            (num saturation)
                            (field "brightness" (optional_int value) end)))
                        s))
      by_check (err e) h = inl (e, ground arith)
      by_check (ok params) h =
          let (in_hue, in_saturation, in_value, same) =
            hsv_params-InRange hue saturation value s.0 h in
          inr (in_hue, in_saturation, in_value, ground arith)

  -- For a bulb with a brightness every integer is sent by `set_brightness`, in contrast to what
  -- `set_hsv` does with its value.
  pub set_brightness-unchecked :
      (level : ℤ) (s : State protocol)
      → is_dimmable s.0 ≡ ok true
      → set_brightness protocol level s
        ≡ set_device_info protocol (field "brightness" (num level) end) s
  unfolding set_brightness
  set_brightness-unchecked level (d, w) h = ground arith
