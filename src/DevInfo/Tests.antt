-- ===== src/DevInfo/Tests.antt =====
-- A sysinfo with an identifier, a position and a dict within it.
use python_kasa.Prelude.{ℕ, ◌≡◌, refl, Bool, ◌&&◌, ◌||◌, ◌==◌, leb}
use python_kasa.Prelude.Int.{pos}
use python_kasa.Exec.{ok, err, type_error}
use python_kasa.Json.{null, num, str, obj, arr, nil, cons, Fields, end, field}
use python_kasa.DevInfo.{scrub, zero_text, zeroed}
use python_kasa.DevInfo.Laws.{IsAnonymous, scrub-IsAnonymous}

-- The digits and letters of ASCII, and the underscore.
abbrev is_word : ℕ → Bool
is_word c = (leb 48 c && leb c 57) || (leb 65 c && leb c 90) || (leb 97 c && leb c 122) || c == 95

abbrev sysinfo : Fields
sysinfo =
    field "mac" (str "50:C7")
      (field "latitude" (num (pos 52)) (field "wifi" (obj (field "ssid" (str "home") end)) end))

abbrev scrubbed : Fields
scrubbed = field "mac" (str "00:00") (
    field "latitude" (num (pos 0))
      (field "wifi" (obj (field "ssid" (str "IyNNQVNLRUROQU1FIyM=") end)) end))

scrubbed_lem : scrub is_word sysinfo ≡ ok scrubbed
unfolding scrub zero_text zeroed
scrubbed_lem = refl

scrub-IsAnonymous_example : IsAnonymous is_word scrubbed
scrub-IsAnonymous_example = scrub-IsAnonymous is_word sysinfo scrubbed_lem

-- The dicts of a list are left as they are, and what is no text is not masked.
list_lem :
    scrub is_word (field "children" (arr (cons (obj (field "mac" (str "50:C7") end)) nil)) end)
    ≡ ok (field "children" (arr (cons (obj (field "mac" (str "50:C7") end)) nil)) end)
unfolding scrub
list_lem = refl

-- A dict under a listed key is scrubbed as any other one.
owned_lem :
    scrub is_word (field "owner" (obj (field "name" (str "Bob") end)) end)
    ≡ ok (field "owner" (obj (field "name" (str "Bob") end)) end)
unfolding scrub
owned_lem = refl

owner_lem : scrub is_word (field "owner" null end) ≡ err type_error
unfolding scrub zero_text
owner_lem = refl
