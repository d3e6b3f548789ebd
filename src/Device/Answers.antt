-- ===== src/Device/Answers.antt =====
-- `_query_helper` (kasa/smartdevice.py): one command, its answer, and the device's error codes.
use python_kasa.Prelude.{
  String, Option, none, some, List, ◌≡◌, refl, true, false, not, if◌then◌else◌, arith, inl, inr,
  ◌⊎◌, subst, ap,
}
use python_kasa.Exec.{
  Error, Result, NoneType, ok, err, smart_device, type_error, raise_if, ◌>>=◌, ◌>>◌, >>=-eq-ok,
  >>=-eq-err, ok-injective,
}
use python_kasa.Exec.State.{Exec}
use python_kasa.Json.{
  Value, null, flag, num, real, str, arr, obj, Fields, end, field, lookup, remove, contains, index,
  is_zero,
}
use python_kasa.Device
use python_kasa.Device.{Protocol, State, as_smart_device}
use python_kasa.Device.Requests.{create_request}

-- `if "err_code" in result and result["err_code"] != 0: raise …`
unfoldable pub check_err_code : Value → Result NoneType
check_err_code result = do
  found ← contains "err_code" result
  code ← (if found then index "err_code" result else ok null)
  raise_if (if found then not (is_zero code) else false) smart_device

-- `if "err_code" in result: del result["err_code"]`
abbrev del_item : String → Value → Result Value
del_item k (obj d) = ok (obj (remove k d))
del_item k _ = err type_error

unfoldable pub without_err_code : Value → Result Value
without_err_code result = do
  found ← contains "err_code" result
  (if found then del_item "err_code" result else ok result)

-- One of the two levels: the key has to be there, and to hold no error code.
unfoldable pub select : String → Value → Result Value
unfolding check_err_code
select key response = do
  found ← contains key response
  raise_if (not found) smart_device
  result ← index key response
  check_err_code result
  ok result

-- What follows the query: the same for the target and for the command.
unfoldable pub unwrap : String → String → Value → Result Value
unfolding select without_err_code
unwrap target cmd response = do
  result ← select target response
  answer ← select cmd result
  without_err_code answer

module _ (protocol : Protocol) where
  -- `_query_helper`
  unfoldable pub query_helper :
      String → String → Value → Option (List String) → Exec (State protocol) Value
  unfolding unwrap
  query_helper target cmd arg child_ids s =
      let r =
        as_smart_device protocol
          (Device.ask protocol (obj (create_request target cmd arg child_ids)) s) in
      (r.0 >>= unwrap target cmd, r.1)

-- Neither the command nor the whole target has failed: a code that is there is 0.
abbrev pub IsAccepted : Fields → Type 0
IsAccepted d = (code : Value) → lookup "err_code" d ≡ some code → is_zero code ≡ true

-- What is returned of an answer.
abbrev pub cleaned : Value → Value
cleaned (obj d) = obj (remove "err_code" d)
cleaned v = v

abbrev pub IsAcceptedValue : Value → Type 0
IsAcceptedValue (obj d) = IsAccepted d
IsAcceptedValue _ = Unit

check_err_code-IsAccepted : (v : Value) → check_err_code v ≡ ok tt → IsAcceptedValue v
unfolding check_err_code contains index lookup
check_err_code-IsAccepted (obj d) h = λ code e. ground arith
check_err_code-IsAccepted null h = tt
check_err_code-IsAccepted (flag b) h = tt
check_err_code-IsAccepted (num n) h = tt
check_err_code-IsAccepted (real x) h = tt
check_err_code-IsAccepted (str s) h = tt
check_err_code-IsAccepted (arr xs) h = tt

remove_absent : (k : String) (d : Fields) → lookup k d ≡ none → remove k d ≡ d
unfolding lookup remove
remove_absent k end h = refl
remove_absent k (field j v d) h = ground (arith, remove_absent k d)

without_err_code-cleaned : (v : Value) {w : Value} → without_err_code v ≡ ok w → w ≡ cleaned v
unfolding without_err_code contains
without_err_code-cleaned (obj d) h = ground (arith, remove_absent "err_code" d)
without_err_code-cleaned (arr xs) h = ground arith
without_err_code-cleaned (str s) h = ground arith
without_err_code-cleaned null h = cc
without_err_code-cleaned (flag b) h = cc
without_err_code-cleaned (num n) h = cc
without_err_code-cleaned (real x) h = cc

contains-index :
    (k : String) (v : Value) {a : Value}
    → index k v ≡ ok a
    → (d : Fields) × (v ≡ obj d) × (lookup k d ≡ some a)
unfolding index
contains-index k (obj d) h = (d, refl, ground arith)
contains-index k null h = cc
contains-index k (flag b) h = cc
contains-index k (num n) h = cc
contains-index k (real x) h = cc
contains-index k (str s) h = cc
contains-index k (arr xs) h = cc

-- What a level returns stands under its key in a dict, and is accepted.
select-eq-ok :
    (key : String) (response : Value) {v : Value}
    → select key response ≡ ok v
    → (r : Fields) × (response ≡ obj r) × (lookup key r ≡ some v) × IsAcceptedValue v
unfolding select
select-eq-ok key response {v} h =
    let (found, _, h1) = >>=-eq-ok (contains key response) _ h in
    let (_, _, h2) = >>=-eq-ok (raise_if (not found) smart_device) _ h1 in
    let (result, e3, h3) = >>=-eq-ok (index key response) _ h2 in
    let (_, e4, h4) = >>=-eq-ok (check_err_code result) _ h3 in
    let (r, shape, there) = contains-index key response e3 in
    let same : result ≡ v = ok-injective h4 in
    (r, shape, rw same at there, subst IsAcceptedValue same (check_err_code-IsAccepted result e4))

unwrap-eq-ok :
    (target cmd : String) (response : Value) {v : Value}
    → unwrap target cmd response ≡ ok v
    → (r : Fields) × (d : Fields) × (answer : Value) × (response ≡ obj r)
      × (lookup target r ≡ some (obj d))
      × (lookup cmd d ≡ some answer)
      × IsAccepted d
      × IsAcceptedValue answer
      × (v ≡ cleaned answer)
unfolding unwrap
unwrap-eq-ok target cmd response h =
    let (result, e1, h1) = >>=-eq-ok (select target response) _ h in
    let (answer, e2, h2) = >>=-eq-ok (select cmd result) _ h1 in
    let (r, shape, at_target, fine) = select-eq-ok target response e1 in
    let (d, inner, at_cmd, fine') = select-eq-ok cmd result e2 in
    (
      r,
      d,
      answer,
      shape,
      rw inner at at_target,
      at_cmd,
      subst IsAcceptedValue inner fine,
      fine',
      without_err_code-cleaned answer h2,
    )

contains-eq-err : (k : String) (v : Value) {e : Error} → contains k v ≡ err e → e ≡ type_error
unfolding contains
contains-eq-err k (obj d) h = cc
contains-eq-err k (arr xs) h = cc
contains-eq-err k (str s) h = cc
contains-eq-err k null h = ground arith
contains-eq-err k (flag b) h = ground arith
contains-eq-err k (num n) h = ground arith
contains-eq-err k (real x) h = ground arith

index-eq-err :
    (k : String) (v : Value) {e : Error}
    → contains k v ≡ ok true
    → index k v ≡ err e
    → e ≡ type_error
unfolding contains index
index-eq-err k (obj d) found h = ground arith
index-eq-err k (arr xs) found h = ground arith
index-eq-err k (str s) found h = ground arith
index-eq-err k null found h = cc
index-eq-err k (flag b) found h = cc
index-eq-err k (num n) found h = cc
index-eq-err k (real x) found h = cc

abbrev IsExpected : Error → Type 0
IsExpected e = (e ≡ smart_device) ⊎ (e ≡ type_error)

check_err_code-eq-err : (v : Value) {e : Error} → check_err_code v ≡ err e → IsExpected e
unfolding check_err_code
check_err_code-eq-err v h = grind (arith, contains-eq-err "err_code" v, index-eq-err "err_code" v)

without_err_code-eq-err : (v : Value) {e : Error} → without_err_code v ≡ err e → IsExpected e
unfolding without_err_code
without_err_code-eq-err v h = grind (arith, contains-eq-err "err_code" v)

select-eq-err :
    (key : String) (response : Value) {e : Error} → select key response ≡ err e → IsExpected e
unfolding select
select-eq-err key response h =
    grind (arith, contains-eq-err key response, index-eq-err key response, check_err_code-eq-err)

unwrap-eq-err :
    (target cmd : String) (response : Value) {e : Error}
    → unwrap target cmd response ≡ err e
    → IsExpected e
unfolding unwrap
unwrap-eq-err target cmd response h = elim (>>=-eq-err (select target response) _ h) [
  | inl e ↦ select-eq-err target response e
  | inr (result, _, h1) ↦ elim (>>=-eq-err (select cmd result) _ h1) [
    | inl e ↦ select-eq-err cmd result e
    | inr (answer, _, h2) ↦ without_err_code-eq-err answer h2
  ]
]

module _ (protocol : Protocol) where
  -- If a command returns, the request made of it has been answered with a dict; its result stands in this
  -- response under the target and the command, without an error code, and no error code but 0 came
  -- with it.
  pub query_helper-eq-ok :
      (target cmd : String) (arg : Value) (child_ids : Option (List String)) (s : State protocol)
      {v : Value}
      → (query_helper protocol target cmd arg child_ids s).0 ≡ ok v
      → (r : Fields) × (d : Fields) × (answer : Value) × ((Device.ask protocol
            (obj (create_request target cmd arg child_ids))
            s).0
          ≡ ok (obj r))
        × (lookup target r ≡ some (obj d))
        × (lookup cmd d ≡ some answer)
        × IsAccepted d
        × IsAcceptedValue answer
        × (v ≡ cleaned answer)
  unfolding query_helper
  query_helper-eq-ok target cmd arg child_ids s {v = v} h =
      by_answer (Device.ask protocol (obj (create_request target cmd arg child_ids)) s) h
    where
      by_answer :
          (o : Result Value × State protocol)
          → ((as_smart_device protocol o).0 >>= unwrap target cmd) ≡ ok v
          → (r : Fields) × (d : Fields) × (answer : Value) × (o.0 ≡ ok (obj r))
            × (lookup target r ≡ some (obj d))
            × (lookup cmd d ≡ some answer)
            × IsAccepted d
            × IsAcceptedValue answer
            × (v ≡ cleaned answer)
      by_answer (err e, t) h = cc
      by_answer (ok response, t) h =
          let (r, d, answer, shape, at_target, at_cmd, fine, fine', same) =
            unwrap-eq-ok target cmd response h in
          (r, d, answer, ap ok shape, at_target, at_cmd, fine, fine', same)

  -- Whatever the protocol raises and the response holds, a command raises SmartDeviceException or
  -- TypeError, and no other exception.
  pub query_helper-raises :
      (target cmd : String) (arg : Value) (child_ids : Option (List String)) (s : State protocol)
      (e : Error)
      → (query_helper protocol target cmd arg child_ids s).0 ≡ err e
      → (e ≡ smart_device) ⊎ (e ≡ type_error)
  unfolding query_helper
  query_helper-raises target cmd arg child_ids s e h =
      by_answer (Device.ask protocol (obj (create_request target cmd arg child_ids)) s) h
    where
      by_answer :
          (o : Result Value × State protocol)
          → ((as_smart_device protocol o).0 >>= unwrap target cmd) ≡ err e
          → (e ≡ smart_device) ⊎ (e ≡ type_error)
      by_answer (err x, t) h = inl (ground arith)
      by_answer (ok response, t) h = unwrap-eq-err target cmd response h
