-- ===== src/DevInfo.antt =====
-- `scrub` of devtools/dump_devinfo.py, which removes identifiers from what is saved of a device. Which
-- characters match \w in a pattern is a parameter.
pub mod Laws
mod Tests
use Prim.Native.Char.{Char, code}
use Prim.Native.String.{[] as empty, ◌∷◌ as ◌:+◌}
use python_kasa.Prelude.{
  ℕ, Bool, true, false, ◌||◌, List, [], ◌∷◌, Option, none, some, String, ◌=s=◌, if◌then◌else◌,
}
use python_kasa.Prelude.Int.{pos}
use python_kasa.Exec.{Result, NoneType, ok, err, type_error, ◌>>=◌}
use python_kasa.Json.{Value, num, str, obj, Fields, end, field}

abbrev pub keys_to_scrub : List String
keys_to_scrub =
    "deviceId" ∷ "fwId" ∷ "hwId" ∷ "oemId" ∷ "mac" ∷ "mic_mac" ∷ "latitude_i" ∷ "longitude_i"
    ∷ "latitude" ∷ "longitude" ∷ "owner" ∷ "device_id" ∷ "ip" ∷ "ssid" ∷ "hw_id" ∷ "fw_id"
    ∷ "oem_id" ∷ []

abbrev pub is_key : String → List String → Bool
is_key k [] = false
is_key k (key ∷ keys) = key =s= k || is_key k keys

abbrev pub is_coordinate : String → Bool
is_coordinate k = is_key k ("latitude" ∷ "latitude_i" ∷ "longitude" ∷ "longitude_i" ∷ [])

-- Whether a character, by its code point, matches \w.
module _ (is_word : ℕ → Bool) where
  -- re.sub(r"\w", "0", v)
  unfoldable pub zeroed : String → String
  zeroed empty = empty
  zeroed (c :+ s) =
      (elim (is_word (code c)) [ true ↦ (let zero : Char = "0" in zero) | false ↦ c ]) :+ zeroed s

  -- re.sub raises for what is no text.
  unfoldable pub zero_text : Value → Result Value
  unfolding zeroed
  zero_text (str s) = ok (str (zeroed s))
  zero_text v = err type_error

  -- What stands for an identifier; the network's name is the base64 of ##MASKEDNAME##.
  abbrev pub mask : String → Value → Result Value
  mask k v =
      if is_coordinate k
      then ok (num (pos 0))
      else if k =s= "ip"
      then ok (str "127.0.0.123")
      else if k =s= "ssid"
      then ok (str "IyNNQVNLRUROQU1FIyM=")
      else zero_text v

  abbrev pub scrub_leaf : String → Value → Result Value
  scrub_leaf k v = if is_key k keys_to_scrub then mask k v else ok v

  -- `scrub` of a dict whose keys are distinct: every entry is written to its own key.
  unfoldable mutual
    pub scrub : Fields → Result Fields
    scrub end = ok end
    scrub (field k v d) =
        scrub_value k v >>= λ (w : Value). scrub d >>= λ (rest : Fields). ok (field k w rest)

    pub scrub_value : String → Value → Result Value
    scrub_value k (obj d) = scrub d >>= λ (e : Fields). ok (obj e)
    scrub_value k v = scrub_leaf k v
