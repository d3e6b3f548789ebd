-- ===== src/DevInfo/Laws.antt =====
-- What is left of the identifiers after `scrub` (devtools/dump_devinfo.py).
use Prim.Native.Char.{code}
use Prim.Native.String.{[] as empty, ◌∷◌ as ◌:+◌}
use python_kasa.Prelude.{
  ℕ, List, [], ◌∷◌, All, not, ◌&&◌, ◌||◌, ◌==◌, sym, ◌∙◌, Bool-cases, inl, inr, ◌≡◌, refl, Bool,
  true, false, String, ◌=s=◌, if◌then◌else◌, arith, subst,
}
use python_kasa.Prelude.Int.{pos}
use python_kasa.Exec.{Result, ok, >>=-eq-ok, ok-injective}
use python_kasa.Json.{Value, num, str, obj, Fields, end, field}
use python_kasa.DevInfo.{
  zeroed, scrub, scrub_value, scrub_leaf, zero_text, mask, keys_to_scrub, is_key, is_coordinate,
}

abbrev is_dict : Value → Bool
is_dict (obj d) = true
is_dict v = false

-- What a coordinate, an address and a network's name are replaced with.
abbrev pub constants : List (String × Value)
constants =
    ("latitude", num (pos 0))
    ∷ ("latitude_i", num (pos 0))
    ∷ ("longitude", num (pos 0))
    ∷ ("longitude_i", num (pos 0))
    ∷ ("ip", str "127.0.0.123")
    ∷ ("ssid", str "IyNNQVNLRUROQU1FIyM=")
    ∷ []

-- The other keys with identifiers.
abbrev pub identifiers : List String
identifiers =
    "mac" ∷ "mic_mac" ∷ "owner" ∷ "deviceId" ∷ "device_id" ∷ "hwId" ∷ "hw_id" ∷ "fwId" ∷ "fw_id"
    ∷ "oemId" ∷ "oem_id" ∷ []

module _ (is_word : ℕ → Bool) where
  -- Whether a text has a character of a word other than 0.
  abbrev pub has_word : String → Bool
  has_word empty = false
  has_word (c :+ s) = (is_word (code c) && not (code c == 48)) || has_word s

  -- A text that is left of an identifier: its digits and letters are all 0.
  abbrev pub IsZeroed : Value → Type 0
  IsZeroed v = (t : String) × (v ≡ str t) × (has_word t ≡ false)

  -- What stands under a key with an identifier, if it is no dict.
  abbrev pub IsMasked : String → Value → Type 0
  IsMasked k v =
      All (λ (key, constant). k ≡ key → v ≡ constant) constants
      × All (λ key. k ≡ key → IsZeroed v) identifiers

  -- No entry of a dict, or of a dict within it, tells an identifier. A dict is looked into whatever its
  -- key is, and a list is not.
  abbrev mutual
    pub IsAnonymous : Fields → Type 0
    IsAnonymous end = Unit
    IsAnonymous (field k v d) = IsAnonymousValue k v × IsAnonymous d

    pub IsAnonymousValue : String → Value → Type 0
    IsAnonymousValue k (obj d) = IsAnonymous d
    IsAnonymousValue k v = IsMasked k v

  zeroed-has_word : (s : String) → has_word (zeroed is_word s) ≡ false
  unfolding zeroed
  zeroed-has_word empty = refl
  zeroed-has_word (c :+ s) = elim (Bool-cases (is_word (code c))) [
    | inl word ↦ rw word (ground (arith, zeroed-has_word s))
    | inr other ↦ rw other (ground (arith, zeroed-has_word s))
  ]

  zero_text-IsZeroed : (v : Value) {w : Value} → zero_text is_word v ≡ ok w → IsZeroed w
  unfolding zero_text
  zero_text-IsZeroed (str s) h = (zeroed is_word s, sym (ok-injective h), zeroed-has_word s)
  zero_text-IsZeroed v h = cc

  constant_lem :
      (v : Value) → All (λ (key, constant). scrub_leaf is_word key v ≡ ok constant) constants
  constant_lem v = (refl, (refl, (refl, (refl, (refl, (refl, tt))))))

  identifier_lem :
      (v : Value) → All (λ key. scrub_leaf is_word key v ≡ zero_text is_word v) identifiers
  identifier_lem v =
      (refl, (refl, (refl, (refl, (refl, (refl, (refl, (refl, (refl, (refl, (refl, tt)))))))))))

  constants-masked :
      (k : String) (v : Value) {w : Value}
      → scrub_leaf is_word k v ≡ ok w
      → (cs : List (String × Value))
      → All (λ (key, constant). scrub_leaf is_word key v ≡ ok constant) cs
      → All (λ (key, constant). k ≡ key → w ≡ constant) cs
  constants-masked k v h [] known = tt
  constants-masked k v {w} h ((key, constant) ∷ cs) (first, known) = (
    λ e. ok-injective (sym (subst (λ (x : String). scrub_leaf is_word x v ≡ ok w) e h) ∙ first),
    constants-masked k v h cs known,
  )

  identifiers-masked :
      (k : String) (v : Value) {w : Value}
      → scrub_leaf is_word k v ≡ ok w
      → (ks : List String) → All (λ key. scrub_leaf is_word key v ≡ zero_text is_word v) ks
      → All (λ key. k ≡ key → IsZeroed w) ks
  identifiers-masked k v h [] known = tt
  identifiers-masked k v {w} h (key ∷ ks) (first, known) = (
    λ e.
        zero_text-IsZeroed v
          (sym first ∙ subst (λ (x : String). scrub_leaf is_word x v ≡ ok w) e h),
    identifiers-masked k v h ks known,
  )

  scrub_leaf-IsMasked :
      (k : String) (v : Value) {w : Value} → scrub_leaf is_word k v ≡ ok w → IsMasked k w
  scrub_leaf-IsMasked k v h = (
    constants-masked k v h constants (constant_lem v),
    identifiers-masked k v h identifiers (identifier_lem v),
  )

  zero_text-is_dict : (v : Value) {w : Value} → zero_text is_word v ≡ ok w → is_dict w ≡ false
  unfolding zero_text
  zero_text-is_dict (str s) h = subst (λ x. is_dict x ≡ false) (ok-injective h) refl
  zero_text-is_dict v h = cc

  -- If no branch returns a dict, the choice returns none.
  chosen-is_dict :
      (b : Bool) (r : Result Value) (v : Value) {w : Value}
      → is_dict v ≡ false
      → (r ≡ ok w → is_dict w ≡ false)
      → (if b then r else ok v) ≡ ok w
      → is_dict w ≡ false
  chosen-is_dict true r v plain other h = other h
  chosen-is_dict false r v plain other h = subst (λ x. is_dict x ≡ false) (ok-injective h) plain

  constant-is_dict :
      (b : Bool) (r : Result Value) (v : Value) {w : Value}
      → is_dict v ≡ false
      → (r ≡ ok w → is_dict w ≡ false)
      → (if b then ok v else r) ≡ ok w
      → is_dict w ≡ false
  constant-is_dict true r v plain other h = subst (λ x. is_dict x ≡ false) (ok-injective h) plain
  constant-is_dict false r v plain other h = other h

  mask-is_dict : (k : String) (v : Value) {w : Value} → mask is_word k v ≡ ok w → is_dict w ≡ false
  mask-is_dict k v = constant-is_dict (is_coordinate k) _ (num (pos 0)) refl (
      constant-is_dict (k =s= "ip") _ (str "127.0.0.123") refl
        (constant-is_dict (k =s= "ssid") _ (str "IyNNQVNLRUROQU1FIyM=") refl (zero_text-is_dict v)))

  scrub_leaf-is_dict :
      (k : String) (v : Value) {w : Value}
      → is_dict v ≡ false
      → scrub_leaf is_word k v ≡ ok w
      → is_dict w ≡ false
  scrub_leaf-is_dict k v plain h =
      chosen-is_dict (is_key k keys_to_scrub) (mask is_word k v) v plain (mask-is_dict k v) h

  no_dict-IsAnonymousValue :
      (k : String) (w : Value) → is_dict w ≡ false → IsMasked k w → IsAnonymousValue k w
  no_dict-IsAnonymousValue k (obj d) plain h = cc
  no_dict-IsAnonymousValue k w plain h = h

  leaf-IsAnonymousValue :
      (k : String) (v : Value) {w : Value}
      → is_dict v ≡ false
      → scrub_leaf is_word k v ≡ ok w
      → IsAnonymousValue k w
  leaf-IsAnonymousValue k v {w} plain h =
      no_dict-IsAnonymousValue k w (scrub_leaf-is_dict k v plain h) (scrub_leaf-IsMasked k v h)

  mutual
    unfolding scrub scrub_value

    dict-IsAnonymous : (d : Fields) {e : Fields} → scrub is_word d ≡ ok e → IsAnonymous e
    dict-IsAnonymous end h = subst IsAnonymous (ok-injective h) tt
    dict-IsAnonymous (field k v d) h =
        let (w, e1, h1) = >>=-eq-ok (scrub_value is_word k v) _ h in
        let (rest, e2, h2) = >>=-eq-ok (scrub is_word d) _ h1 in
        subst IsAnonymous (ok-injective h2) (entry-IsAnonymous k v e1, dict-IsAnonymous d e2)

    entry-IsAnonymous :
        (k : String) (v : Value) {w : Value} → scrub_value is_word k v ≡ ok w → IsAnonymousValue k w
    entry-IsAnonymous k (obj d) h =
        let (e, e1, h1) = >>=-eq-ok (scrub is_word d) _ h in
        subst (IsAnonymousValue k) (ok-injective h1) (dict-IsAnonymous d e1)
    entry-IsAnonymous k v h = leaf-IsAnonymousValue k v refl h

  -- A dict that has been scrubbed tells no identifier, at any depth of the dicts within it: what is left
  -- under a coordinate is 0, under an IP address or a network's name a constant, and under each of the
  -- eleven other keys a text whose characters of words are all 0, unless it is a dict, of which the same
  -- holds. Lists are left as they are.
  pub scrub-IsAnonymous : (d : Fields) {e : Fields} → scrub is_word d ≡ ok e → IsAnonymous e
  scrub-IsAnonymous d h = dict-IsAnonymous d h
