-- ===== src/Cli/Targets.antt =====
-- The commands for a device or one socket of a strip: on, off, toggle, alias, led, reboot and time
-- (kasa/cli.py).
use python_kasa.Prelude.{
  Bool, not, ◌&&◌, ◌||◌, Option, none, some, String, ◌=s=◌, is_some, if◌then◌else◌, List, [],
}
use python_kasa.Prelude.Int.{ℤ}
use python_kasa.Exec.{Result, NoneType, ok}
use python_kasa.Exec.State.{Exec, pure, lift, ◌>>=◌}
use python_kasa.Json.{Value}
use python_kasa.Cli.{Reply, refused, shown, showing, sending}

-- The devices as these commands use them.
pub record Switches : Type 1 where
  pub World : Type 0
  pub Device : Type 0
  pub Time : Type 0
  pub is_strip : Device → Bool
  pub get_plug_by_index : ℤ → Device → Result Device
  pub get_plug_by_name : String → Device → Result Device
  pub alias : Device → Result String
  -- the aliases of the sockets of a strip, which are printed
  pub plug_aliases : Device → Result (List String)
  pub set_alias : String → Device → World → Result Value × World
  pub is_on : Device → Result Bool
  pub turn_on : Option ℤ → Device → World → Result Value × World
  pub turn_off : Option ℤ → Device → World → Result Value × World
  pub led : Device → Result Bool
  pub set_led : Bool → Device → World → Result Value × World
  pub time : Device → Result Time
  pub reboot : ℤ → Device → World → Result Value × World

module _ (switches : Switches) where
  open switches use {
    World, Device, is_strip, get_plug_by_index, get_plug_by_name, is_on, turn_on, turn_off,
  }

  -- The socket with the index or the name; an empty name stands for the strip.
  abbrev pub socket : Option ℤ → Option String → Device → Result Device
  socket (some index) name dev = get_plug_by_index index dev
  socket none (some name) dev = if name =s= "" then ok dev else get_plug_by_name name dev
  socket none none dev = ok dev

  abbrev pub needs_strip : Option ℤ → Option String → Device → Bool
  needs_strip index name dev = (is_some index || is_some name) && not (is_strip dev)

  -- What is done with a device or a socket of it; its alias is read to be printed first.
  unfoldable pub with_target :
      Option ℤ
      → Option String
      → (Device → Exec World Value)
      → Device
      → Exec World (Reply NoneType Value)
  with_target index name act dev world =
      if needs_strip index name dev
      then (ok refused, world)
      else (do
        target ← lift (socket index name dev)
        _ ← lift (switches.alias target)
        sending (act target))
          world

  unfoldable pub on :
      Option ℤ → Option String → Option ℤ → Device → Exec World (Reply NoneType Value)
  unfolding with_target
  on index name transition = with_target index name (turn_on transition)

  unfoldable pub off :
      Option ℤ → Option String → Option ℤ → Device → Exec World (Reply NoneType Value)
  unfolding with_target
  off index name transition = with_target index name (turn_off transition)

  -- The other state of a device; the alias is read only once it is known whether the device is on.
  unfoldable pub switch_over : Option ℤ → Device → Exec World (Reply NoneType Value)
  switch_over transition target = do
    lit ← lift (is_on target)
    _ ← lift (switches.alias target)
    sending (if lit then turn_off transition target else turn_on transition target)

  unfoldable pub toggle :
      Option ℤ → Option String → Option ℤ → Device → Exec World (Reply NoneType Value)
  unfolding switch_over
  toggle index name transition dev world =
      if needs_strip index name dev
      then (ok refused, world)
      else (do target ← lift (socket index name dev); switch_over transition target) world

  -- The alias of the device or of the socket with the index; a new one is set.
  abbrev pub plug_or_self : Option ℤ → Device → Result Device
  plug_or_self none dev = ok dev
  plug_or_self (some index) dev = get_plug_by_index index dev

  abbrev show_aliases : Device → Exec World (Reply String Value)
  show_aliases target = do
    name ← lift (switches.alias target)
    _ ← lift (if is_strip target then switches.plug_aliases target else ok [])
    pure (shown name)

  unfoldable pub alias : Option String → Option ℤ → Device → Exec World (Reply String Value)
  alias new_alias index dev world =
      if is_some index && not (is_strip dev)
      then (ok refused, world)
      else (do
        target ← lift (plug_or_self index dev)
        elim new_alias [
          | some name ↦ sending (switches.set_alias name target)
          | none ↦ show_aliases target
        ])
          world

  unfoldable pub led : Option Bool → Device → Exec World (Reply Bool Value)
  led (some state) dev = sending (switches.set_led state dev)
  led none dev = showing (switches.led dev)

  abbrev pub time : Device → Result switches.Time
  time dev = switches.time dev

  abbrev pub reboot : ℤ → Device → Exec World Value
  reboot delay plug = switches.reboot delay plug
