-- ===== src/LightStrip/Laws.antt =====
-- What calls of `set_effect` do to the table that all light strips share.
use python_kasa.Prelude.{
  ◌≡◌, refl, sym, ◌∙◌, ap, subst, false, List, [], ◌∷◌, Option, none, some, String, ◌=s=◌, All,
  arith, eq_iff, Bool-cases, inl, inr,
}
use python_kasa.Prelude.Int.{ℤ}
use python_kasa.Exec.{Result, NoneType, ok, err}
use python_kasa.Json.{str, num, Fields, lookup, put}
use python_kasa.Json.Laws.{lookup-put}
use python_kasa.Device
use python_kasa.Lights.Laws.{command-device}
use python_kasa.Device.{SmartDevice, Protocol, requires_update, is_none}
use python_kasa.Effects.{Table, effect_mapping_v1}
use python_kasa.LightStrip.{
  State, find_effect, change_effect, override, set_effect, set_custom_effect, custom_command,
  set_known_effect,
}

-- Every effect stands under its own name.
abbrev pub IsNamed : Table → Type 0
IsNamed = All (λ e. lookup "name" e.1 ≡ some (str e.0))

effect_mapping_v1-IsNamed : IsNamed effect_mapping_v1
unfolding effect_mapping_v1 lookup
effect_mapping_v1-IsNamed = search

override-name :
    (brightness transition : Option ℤ) (d : Fields)
    → lookup "name" (override brightness transition d) ≡ lookup "name" d
unfolding override
override-name none none d = refl
override-name (some b) none d = lookup-put "brightness" "name" (num b) d
override-name none (some t) d = lookup-put "transition" "name" (num t) d
override-name (some b) (some t) d =
    lookup-put "transition" "name" (num t) (put "brightness" (num b) d)
    ∙ lookup-put "brightness" "name" (num b) d

find_effect-name :
    (name : String) (table : Table) {d : Fields}
    → IsNamed table
    → find_effect name table ≡ some d
    → lookup "name" d ≡ some (str name)
unfolding find_effect
find_effect-name name [] named h = cc
find_effect-name name ((other, e) ∷ table) (own, rest) h = elim (Bool-cases (other =s= name)) [
  | inl same ↦ ground (arith, eq_iff other name)
  | inr differs ↦ find_effect-name name table rest (ground arith)
]

change_effect-IsNamed :
    (name : String) (d : Fields) (table : Table)
    → lookup "name" d ≡ some (str name)
    → IsNamed table
    → IsNamed (change_effect name d table)
unfolding change_effect
change_effect-IsNamed name d [] own named = tt
change_effect-IsNamed name d ((other, e) ∷ table) own (first, rest) =
    elim (Bool-cases (other =s= name)) [
      | inl same ↦ rw same (ground (arith, eq_iff other name), rest)
      | inr differs ↦ rw differs (first, change_effect-IsNamed name d table own rest)
    ]

find_effect-change_effect :
    (name : String) (d : Fields) (table : Table) {e : Fields}
    → find_effect name table ≡ some e
    → find_effect name (change_effect name d table) ≡ some d
unfolding find_effect change_effect
find_effect-change_effect name d [] h = cc
find_effect-change_effect name d ((other, e) ∷ table) h = elim (Bool-cases (other =s= name)) [
  | inl same ↦ ground arith
  | inr differs ↦
      rw differs
        (rw differs (find_effect-change_effect name d table (rw (differs, find_effect) at h)))
]

-- The arguments of `set_effect`.
pub record Call : Type 0 where
  pub name : String
  pub brightness : Option ℤ
  pub transition : Option ℤ

module _ (protocol : Protocol) where
  set_effect-IsNamed :
      (name : String) (brightness transition : Option ℤ) (s : State protocol)
      → IsNamed s.0
      → IsNamed (set_effect protocol name brightness transition s).1.0
  unfolding set_effect
  set_effect-IsNamed name brightness transition (table, s) named =
      by_guard (requires_update "set_effect" s.0) (find_effect name table) refl
    where
      by_guard :
          (r : Result NoneType) (found : Option Fields)
          → find_effect name table ≡ found
          → IsNamed
              (elim r as (λ _. Result NoneType × State protocol) [
                | err e ↦ (err e, (table, s))
                | ok _ ↦ set_known_effect protocol name brightness transition found (table, s)
              ]).1.0
      by_guard (err e) found h = named
      by_guard (ok _) none h = named
      by_guard (ok _) (some d) h =
          change_effect-IsNamed name (override brightness transition d) table
            (override-name brightness transition d ∙ find_effect-name name table named h) named

  -- Calls one after another, on any strips; what they return or raise is not looked at.
  pub set_effects : List Call → State protocol → State protocol
  set_effects [] s = s
  set_effects (c ∷ cs) s = set_effects cs (set_effect protocol c.name c.brightness c.transition s).1

  set_effects-keeps :
      (cs : List Call) (s : State protocol) → IsNamed s.0 → IsNamed (set_effects cs s).0
  unfolding set_effects
  set_effects-keeps [] s named = named
  set_effects-keeps (c ∷ cs) s named =
      set_effects-keeps cs (set_effect protocol c.name c.brightness c.transition s).1
        (set_effect-IsNamed c.name c.brightness c.transition s named)

  -- From the built-in table on, whatever effects are set and whether the calls return or raise, every
  -- effect of the table stands under its own name.
  pub set_effects-IsNamed :
      (cs : List Call) (s : State protocol) → s.0 ≡ effect_mapping_v1 → IsNamed (set_effects cs s).0
  set_effects-IsNamed cs s start =
      set_effects-keeps cs s (subst IsNamed (sym start) effect_mapping_v1-IsNamed)

  set_effect-found :
      (name : String) (brightness transition : Option ℤ) (table : Table) (s : Device.State protocol)
      {d : Fields}
      → find_effect name table ≡ some d
      → is_none s.0.last_update ≡ false
      → let changed = override brightness transition d in
        set_effect protocol name brightness transition (table, s)
        ≡ set_custom_effect protocol changed (change_effect name changed table, s)
  unfolding set_effect requires_update
  set_effect-found name brightness transition table s found known =
      rw (known, set_effect) (rw found refl)

  set_custom_effect-table :
      (d : Fields) (s : State protocol) → (set_custom_effect protocol d s).1.0 ≡ s.0
  unfolding set_custom_effect
  set_custom_effect-table d s = refl

  set_custom_effect-device :
      (d : Fields) (s : State protocol) → (set_custom_effect protocol d s).1.1.0 ≡ s.1.0
  unfolding set_custom_effect
  set_custom_effect-device d (table, s) = command-device protocol (custom_command d) s

  -- A brightness that is given for an effect stays in the table, also if the call raises: the next call
  -- for the effect sends it, though it names no brightness.
  pub set_effect-remembers :
      (name : String) (brightness : ℤ) (s : State protocol) {d : Fields}
      → find_effect name s.0 ≡ some d
      → is_none s.1.0.last_update ≡ false
      → let t = (set_effect protocol name (some brightness) none s).1 in
        let changed = put "brightness" (num brightness) d in
        (find_effect name t.0 ≡ some changed)
        × (set_effect protocol name none none t
            ≡ set_custom_effect protocol changed (change_effect name changed t.0, t.1))
  unfolding override
  set_effect-remembers name brightness (table, s) {d} found known =
      let changed = put "brightness" (num brightness) d in
      let first = set_effect-found name (some brightness) none table s found known in
      let kept =
        ap (λ (o : Result NoneType × State protocol). o.1.0) first
        ∙ set_custom_effect-table changed (change_effect name changed table, s) in
      let there = ap (find_effect name) kept ∙ find_effect-change_effect name changed table found in
      let t = (set_effect protocol name (some brightness) none (table, s)).1 in
      let device =
        ap (λ (o : Result NoneType × State protocol). o.1.1.0) first
        ∙ set_custom_effect-device changed (change_effect name changed table, s) in
      (
        there,
        set_effect-found name none none t.0 t.1 there
            (ap (λ (x : SmartDevice). is_none x.last_update) device ∙ known),
      )
