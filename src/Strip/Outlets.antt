-- ===== src/Strip/Outlets.antt =====
-- The strip as a whole (kasa/smartstrip.py): whether it is on, since when, and its commands.
use python_kasa.Prelude.{
  ℕ, Bool, true, false, not, List, [], ◌∷◌, Option, none, some, String, if◌then◌else◌, length,
}
use python_kasa.Prelude.Int.{ℤ, pos, ltb_ℤ}
use python_kasa.Exec.{Result, NoneType, ok, err, value_error, ◌>>=◌}
use python_kasa.Exec.State.{Exec}
use python_kasa.Numbers.{Float}
use python_kasa.Json.{Value, num, obj, end, field, index}
use python_kasa.Device.{Protocol}
use python_kasa.Device.Answers.{query_helper}
use python_kasa.Device.Properties.{guarded, sys_info}
use python_kasa.Device.Switch.{is_led_on}
use python_kasa.Lights.Dimmer.{off_flag}
use python_kasa.Strip.{Socket, Strip, State, on_parent}
use python_kasa.Strip.Sockets

-- any(plug.is_on for plug in self.children)
unfoldable pub any_on : Strip → List Socket → Result Bool
unfolding Sockets.is_on
any_on s [] = ok false
any_on s (c ∷ cs) =
    let rest = any_on s cs in Sockets.is_on s.device c >>= λ (b : Bool). if b then ok true else rest

unfoldable pub is_on : Strip → Result Bool
unfolding any_on
is_on s = guarded "is_on" (λ _. any_on s s.children) s.device

unfoldable pub is_off : Strip → Result Bool
unfolding is_on
is_off s = guarded "is_off" (λ _. is_on s >>= λ (b : Bool). ok (not b)) s.device

-- [plug.on_since for plug in self.children if plug.on_since is not None]
unfoldable pub times_on : (Float → ℤ) → ℤ → Strip → List Socket → Result (List ℤ)
unfolding Sockets.on_since
times_on rounded now s [] = ok []
times_on rounded now s (c ∷ cs) = Sockets.on_since rounded now s.device c >>= λ (t : Option ℤ).
    times_on rounded now s cs >>= λ (rest : List ℤ). ok (elim t [ none ↦ rest | some x ↦ x ∷ rest ])

abbrev pub larger : ℤ → List ℤ → ℤ
larger best [] = best
larger best (t ∷ ts) = larger (if ltb_ℤ best t then t else best) ts

-- max(…), which an empty sequence has not
abbrev pub max : List ℤ → Result ℤ
max [] = err value_error
max (t ∷ ts) = ok (larger t ts)

unfoldable pub on_since : (Float → ℤ) → ℤ → Strip → Result (Option ℤ)
unfolding is_off times_on
on_since rounded now s =
    guarded "on_since"
      (λ _. is_off s >>= λ (off : Bool).
        if off
        then ok none
        else (times_on rounded now s s.children >>= λ (ts : List ℤ).
            max ts >>= λ (t : ℤ). ok (some t)))
      s.device

unfoldable pub led : Strip → Result Bool
unfolding sys_info
led s =
    guarded "led"
      (λ device. sys_info device >>= λ (info : Value). index "led_off" info >>= is_led_on) s.device

-- `state_information`: the values of "LED state", "Childs count" and "On since"
unfoldable pub state_information : (Float → ℤ) → ℤ → Strip → Result (Bool × ℕ × Option ℤ)
unfolding led on_since
state_information rounded now s =
    guarded "state_information"
      (λ _. led s >>= λ (lit : Bool).
        on_since rounded now s >>= λ (started : Option ℤ). ok (lit, length s.children, started))
      s.device

module _ (protocol : Protocol) where
  abbrev relay : String → ℤ → String → Exec (State protocol) NoneType
  relay cmd value key s =
      let r =
        on_parent protocol
          (query_helper protocol "system" cmd (obj (field key (num value) end)) none) s in
      (r.0 >>= λ (_ : Value). ok tt, r.1)

  unfoldable pub turn_on : Exec (State protocol) NoneType
  unfolding query_helper
  turn_on = relay "set_relay_state" (pos 1) "state"

  unfoldable pub turn_off : Exec (State protocol) NoneType
  unfolding query_helper
  turn_off = relay "set_relay_state" (pos 0) "state"

  unfoldable pub set_led : Bool → Exec (State protocol) NoneType
  unfolding query_helper
  set_led state = relay "set_led_off" (off_flag state) "off"
