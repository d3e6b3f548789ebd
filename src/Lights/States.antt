-- ===== src/Lights/States.antt =====
-- What a light state that is sent says (kasa/smartbulb.py), key by key, and when the light comes back as it
-- was.
use python_kasa.Prelude.{
  ◌≡◌, ◌≢◌, refl, ap, ◌∙◌, ◌⊎◌, inl, inr, Bool, true, false, ◌&&◌, ◌||◌, Option, none, some, String,
  ◌=s=◌, if◌then◌else◌, arith, eq_iff, or_default, Bool-cases,
}
use python_kasa.Prelude.Int.{ℤ, pos}
use python_kasa.Json.{Value, num, Fields, end, field, lookup, put, has, truthy}
use python_kasa.Json.Laws.{lookup-put}
use python_kasa.Lights.Bulb.{light_state_request, put_some, on_by_default, turns_on, only_flags}

-- The keys that say nothing of the color.
abbrev is_flag : String → Bool
is_flag k = k =s= "transition_period" || k =s= "on_off"

only_flags-put :
    (k : String) (v : Value) (d : Fields) → is_flag k ≡ true → only_flags (put k v d) ≡ only_flags d
unfolding put
only_flags-put k v end h = ground arith
only_flags-put k v (field j w d) h = ground (arith, eq_iff j k, only_flags-put k v d h)

-- Each key of such a state is one of the two.
only_flags-true :
    (d : Fields) (k : String) → only_flags d ≡ true → has k d ≡ true → is_flag k ≡ true
unfolding lookup
only_flags-true end k h there = cc
only_flags-true (field j v d) k h there = ground (arith, eq_iff j k, only_flags-true d k)

-- And one key of any other state is not.
only_flags-false :
    (d : Fields) → only_flags d ≡ false → (k : String) × (has k d ≡ true) × (is_flag k ≡ false)
unfolding lookup
only_flags-false end h = cc
only_flags-false (field j v d) h = elim (Bool-cases (is_flag j)) [
  | inr other ↦ (j, ground (arith, eq_iff j j), other)
  | inl same ↦
      let (k, there, other) = only_flags-false d (ground arith) in
      (k, ground (arith, eq_iff j k), other)
]

-- The state with its "on_off", which is 1 if it has none.
abbrev switch_of : Fields → Value
switch_of state = or_default (lookup "on_off" state) (num (pos 1))

on_by_default-lookup :
    (d : Fields) (key : String)
    → lookup key (on_by_default d) ≡ (if "on_off" =s= key then some (switch_of d) else lookup key d)
on_by_default-lookup d key =
    ground (arith, lookup-put "on_off" key (num (pos 1)) d, eq_iff "on_off" key)

-- What is sent under a key, the default flag apart.
abbrev pub sent_value : Fields → Option ℤ → String → Option Value
sent_value state transition key =
    if "on_off" =s= key
    then some (switch_of state)
    else if "transition_period" =s= key
    then elim transition [ none ↦ lookup key state | some t ↦ some (num t) ]
    else lookup key state

asked-lookup :
    (state : Fields) (transition : Option ℤ) (key : String)
    → lookup key (on_by_default (put_some "transition_period" transition state))
      ≡ sent_value state transition key
asked-lookup state none key = ground (arith, on_by_default-lookup state key)
asked-lookup state (some t) key = ground (
  arith,
  on_by_default-lookup (put "transition_period" (num t) state) key,
  lookup-put "transition_period" key (num t) state,
  lookup-put "transition_period" "on_off" (num t) state,
)

asked-turns_on :
    (state : Fields) (transition : Option ℤ)
    → turns_on (on_by_default (put_some "transition_period" transition state))
      ≡ truthy (switch_of state)
asked-turns_on state transition =
    ap (λ (o : Option Value). elim o [ none ↦ false | some v ↦ truthy v ])
      (asked-lookup state transition "on_off")

on_by_default-only_flags : (d : Fields) → only_flags (on_by_default d) ≡ only_flags d
on_by_default-only_flags d = ground (arith, only_flags-put "on_off" (num (pos 1)) d refl)

asked-only_flags :
    (state : Fields) (transition : Option ℤ)
    → only_flags (on_by_default (put_some "transition_period" transition state)) ≡ only_flags state
asked-only_flags state none = on_by_default-only_flags state
asked-only_flags state (some t) =
    on_by_default-only_flags (put "transition_period" (num t) state)
    ∙ only_flags-put "transition_period" (num t) state refl

-- A state that turns the light on and says nothing but that and the transition.
abbrev pub ComesBack : Fields → Type 0
ComesBack state =
    (truthy (switch_of state) ≡ true)
    × ((k : String) → has k state ≡ true → (k ≡ "transition_period") ⊎ (k ≡ "on_off"))

-- A state that turns the light off or says something else.
abbrev pub SaysMore : Fields → Type 0
SaysMore state =
    (truthy (switch_of state) ≡ false)
    ⊎ ((k : String) × (has k state ≡ true) × (k ≢ "transition_period") × (k ≢ "on_off"))

flag-cases :
    (state : Fields)
    → ((truthy (switch_of state) && only_flags state ≡ true) × ComesBack state)
      ⊎ ((truthy (switch_of state) && only_flags state ≡ false) × SaysMore state)
flag-cases state = elim (Bool-cases (truthy (switch_of state))) [
  | inr off ↦ inr (ground arith, inl off)
  | inl on ↦ elim (Bool-cases (only_flags state)) [
    | inl only ↦ inl (
      ground arith,
      (
        on,
        λ k there.
            let known = only_flags-true state k only there in
            ground (arith, eq_iff k "transition_period", eq_iff k "on_off"),
      ),
    )
    | inr more ↦
        let (k, there, other) = only_flags-false state more in
        inr (
          ground arith,
          inr (
            k,
            there,
            λ e. ground (arith, eq_iff k "transition_period"),
            λ e. ground (arith, eq_iff k "on_off"),
          ),
        )
  ]
]

-- A light state is sent with each of its values, with the transition put in and `on_off` 1 if it is not
-- given; `ignore_default` is 0, so that the light comes back as it was, exactly when the state turns
-- the light on and has no key but `on_off` and the transition, and else it is 1.
pub light_state_request-values :
    (state : Fields) (transition : Option ℤ) (key : String)
    → (ignored : ℤ) × (lookup key (light_state_request state transition) ≡ (
        if "ignore_default" =s= key then some (num ignored) else sent_value state transition key))
      × (((ignored ≡ pos 0) × ComesBack state) ⊎ ((ignored ≡ pos 1) × SaysMore state))
unfolding light_state_request
light_state_request-values state transition key =
    let asked = on_by_default (put_some "transition_period" transition state) in
    let sent =
      lookup-put "ignore_default" key
        (num (if turns_on asked && only_flags asked then pos 0 else pos 1)) asked
      ∙ ap
          (λ (o : Option Value).
            if "ignore_default" =s= key
            then some (num (if turns_on asked && only_flags asked then pos 0 else pos 1))
            else o)
          (asked-lookup state transition key) in
    let on = asked-turns_on state transition in
    let only = asked-only_flags state transition in
    (
      if turns_on asked && only_flags asked then pos 0 else pos 1,
      sent,
      elim (flag-cases state) [
        | inl (both, back) ↦ inl (rw (on, only, both) refl, back)
        | inr (not_both, more) ↦ inr (rw (on, only, not_both) refl, more)
      ],
    )
