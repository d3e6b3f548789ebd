-- ===== src/Device/Fetched.antt =====
-- What an update takes from the responses (kasa/smartdevice.py), key by key.
use python_kasa.Prelude.{
  Bool, ℕ, ◌≡◌, refl, sym, ap, ◌∙◌, subst, List, [], ◌∷◌, Option, none, some, String, All, arith,
  inl, inr, ◌⊎◌,
}
use python_kasa.Exec.{NoneType, ok, >>=-eq-ok, ok-injective}
use python_kasa.Exec.State.{pure, modify, Keeps, Keeps-bind, bind-eq-ok, ◌>>=◌, ◌>>◌}
use python_kasa.Json.{Value, null, obj, arr, Items, Fields, end, lookup, IsDict}
use python_kasa.Device
use python_kasa.Device.{
  Module, SmartDevice, Protocol, State, view, on_device, is_none, has_emeter, set_sys_info,
}
use python_kasa.Device.Requests.{create_request}
use python_kasa.Device.Batches.{request_list}
use python_kasa.Device.Responses.{
  put_all, spread, spread_all, copy_or_empty, merge_responses, first_size, sysinfo_of,
  lookup-put_all,
}
use python_kasa.Device.Updates.{
  values, nonempty, ask_all, with_emeter, modular_update, initial_update, if_first, update,
  with_emeter-last, update-IsUpdated,
}

-- A dict as json.loads makes it, and any other value.
abbrev pub IsJson : Value → Type 0
IsJson (obj d) = IsDict d
IsJson v = Unit

abbrev pub fields_of : Value → Fields
fields_of (obj d) = d
fields_of v = end

abbrev pub or_before : Option Value → Option Value → Option Value
or_before none before = before
or_before (some v) before = some v

-- What the last of the responses that has a key says of it, and `before` if none has it.
abbrev pub latest : String → List Value → Option Value → Option Value
latest key [] before = before
latest key (response ∷ responses) before =
    latest key responses (or_before (lookup key (fields_of response)) before)

put_all-or_before :
    (key : String) (a b : Fields)
    → IsDict b
    → lookup key (put_all a b) ≡ or_before (lookup key b) (lookup key a)
put_all-or_before key a b dict = lookup-put_all key a b dict ∙ same (lookup key b)
  where
    same :
        (o : Option Value)
        → (elim o [ none ↦ lookup key a | some v ↦ some v ]) ≡ or_before o (lookup key a)
    same none = refl
    same (some v) = refl

spread_all-latest :
    (key : String) (a : Fields) (responses : List Value) {merged : Value}
    → All IsJson responses
    → spread_all (obj a) responses ≡ ok merged
    → lookup key (fields_of merged) ≡ latest key responses (lookup key a)
unfolding spread_all spread
spread_all-latest key a [] dicts h = ap (λ v. lookup key (fields_of v)) (sym (ok-injective h))
spread_all-latest key a (obj b ∷ responses) (dict, dicts) h =
    spread_all-latest key (put_all a b) responses dicts h
    ∙ ap (latest key responses) (put_all-or_before key a b dict)
spread_all-latest key a (v ∷ responses) dicts h = cc

spread_all-arr :
    (key : String) (xs : Items) (responses : List Value) {merged : Value}
    → spread_all (arr xs) responses ≡ ok merged
    → lookup key (fields_of merged) ≡ latest key responses none
unfolding spread_all spread lookup
spread_all-arr key xs [] h = ap (λ v. lookup key (fields_of v)) (sym (ok-injective h))
spread_all-arr key xs (v ∷ responses) h = cc

copy_or_empty-cases :
    (last : Value) {c : Value}
    → copy_or_empty last ≡ ok c
    → (c ≡ obj (fields_of last)) ⊎ ((xs : Items) × (c ≡ arr xs) × (fields_of last ≡ end))
copy_or_empty-cases (obj d) h = inl (sym (ok-injective h))
copy_or_empty-cases (arr xs) h = ground arith
copy_or_empty-cases v h = ground arith

merge_responses-latest :
    (key : String) (last : Value) (responses : List Value) {merged : Value}
    → All IsJson responses
    → merge_responses last responses ≡ ok merged
    → lookup key (fields_of merged) ≡ latest key responses (lookup key (fields_of last))
unfolding merge_responses lookup
merge_responses-latest key last responses {merged} dicts h =
    let (c, copied, spreads) = >>=-eq-ok (copy_or_empty last) _ h in
    elim (copy_or_empty-cases last copied) [
      | inl same ↦
          spread_all-latest key (fields_of last) responses dicts
            (subst (λ v. spread_all v responses ≡ ok merged) same spreads)
      | inr (xs, same, nothing) ↦
          spread_all-arr key xs responses
            (subst (λ v. spread_all v responses ≡ ok merged) same spreads)
          ∙ ap (λ d. latest key responses (lookup key d)) (sym nothing)
    ]

module _ (protocol : Protocol) (size : ℕ) where
  -- What the JSON reader documents: the keys of a dict are distinct.
  abbrev pub AnswersJson : Type 0
  AnswersJson =
      (request : Value) (w : protocol.World) (v : Value)
      → (protocol.query request w).0 ≡ ok v
      → IsJson v

  ask-device :
      (d : SmartDevice) (request : Value) → Keeps (λ t. t.0 ≡ d) (Device.ask protocol request)
  ask-device d request = record { at = λ s h. unfold Device.ask in h }

  pure-device :
      {A : Type 0} (d : SmartDevice) (a : A) → Keeps {S = State protocol} (λ t. t.0 ≡ d) (pure a)
  pure-device d a = record { at = λ s h. h }

  ask_all-device :
      (d : SmartDevice) (requests : List Value)
      → Keeps (λ t. t.0 ≡ d) (ask_all protocol size requests)
  unfolding ask_all
  ask_all-device d [] = pure-device d []
  ask_all-device d (request ∷ requests) = Keeps-bind _ _ (ask-device d request) λ response.
      Keeps-bind _ _ (ask_all-device d requests) λ responses. pure-device d (response ∷ responses)

  ask-IsJson :
      (request : Value) (s : State protocol) {v : Value}
      → AnswersJson
      → (Device.ask protocol request s).0 ≡ ok v
      → IsJson v
  unfolding Device.ask
  ask-IsJson request (s, w) {v} json h = json request w v h

  ask_all-IsJson :
      (requests : List Value) (s : State protocol) {responses : List Value}
      → AnswersJson
      → (ask_all protocol size requests s).0 ≡ ok responses
      → All IsJson responses
  unfolding ask_all
  ask_all-IsJson [] s json h = subst (All IsJson) (ok-injective h) tt
  ask_all-IsJson (request ∷ requests) s json h =
      let (v, e1, h1, _) = bind-eq-ok (Device.ask protocol request) _ s h in
      let t = (Device.ask protocol request s).1 in
      let (vs, e2, h2, _) = bind-eq-ok (ask_all protocol size requests) _ t h1 in
      subst (All IsJson) (ok-injective h2)
        (ask-IsJson request s json e1, ask_all-IsJson requests t json e2)

  -- An update of the modules that returns: what it asks for, what is answered, and what is kept of it.
  abbrev IsMerged : Fields → State protocol → List Value → List Value → Value → Value → Type 0
  IsMerged req (u, w) requests responses merged kept =
      (request_list size u.last_update (values u.modules) (obj req) (first_size req) ≡ ok requests)
      × ((ask_all protocol size (nonempty requests) (u, w)).0 ≡ ok responses)
      × (merge_responses u.last_update responses ≡ ok merged)
      × (kept ≡ merged)

  modular_update-eq-ok :
      (req : Fields) (s : SmartDevice) (w : protocol.World) {r : NoneType}
      → (modular_update protocol size req (s, w)).0 ≡ ok r
      → (has : Bool) × (requests : List Value) × (responses : List Value) × (merged : Value)
        × (has_emeter s ≡ ok has)
        × IsMerged req
            (with_emeter protocol size has s, w)
            requests
            responses
            merged
            (modular_update protocol size req (s, w)).1.0.last_update
  unfolding modular_update
  modular_update-eq-ok req s w h =
      let (has, e1, h1, r1) = bind-eq-ok (view protocol has_emeter) _ (s, w) h in
      let u = with_emeter protocol size has s in
      let (_, e2, h2, r2) =
        bind-eq-ok (modify (λ (s, w). (with_emeter protocol size has s, w))) _ (s, w) h1 in
      let (requests, e3, h3, r3) =
        bind-eq-ok
          (view protocol
            (λ s. request_list size s.last_update (values s.modules) (obj req) (first_size req)))
          _ (u, w) h2 in
      let (responses, e4, h4, r4) =
        bind-eq-ok (ask_all protocol size (nonempty requests)) _ (u, w) h3 in
      let t = (ask_all protocol size (nonempty requests) (u, w)).1 in
      let (merged, e5, h5, r5) =
        bind-eq-ok (view protocol (λ s. merge_responses s.last_update responses)) _ t h4 in
      let same : t.0 ≡ u = (ask_all-device u (nonempty requests)).at (u, w) refl in
      (
        has,
        requests,
        responses,
        merged,
        e1,
        (
          e3,
          e4,
          subst (λ (x : SmartDevice). merge_responses x.last_update responses ≡ ok merged) same e5,
          ap (λ o. o.1.0.last_update) (r1 ∙ r2 ∙ r3 ∙ r4 ∙ r5),
        ),
      )

  -- The state that the modules are updated in: after the initial query, if there was no update before.
  abbrev pub starting : Fields → State protocol → State protocol
  starting req s =
      (if_first protocol size (is_none s.0.last_update) (initial_update protocol size req) s).1

  -- Reading the sysinfo keeps the responses.
  read_sysinfo-keeps :
      (s : State protocol)
      → ((view protocol (λ s. sysinfo_of s.last_update) >>= λ info.
            on_device protocol (set_sys_info info))
          s).1.0.last_update
        ≡ s.0.last_update
  unfolding ◌>>=◌ set_sys_info
  read_sysinfo-keeps (s, w) = ground arith

  pub update-IsFetched :
      (s : State protocol) (key : String) {r : NoneType}
      → AnswersJson
      → (update protocol size s).0 ≡ ok r
      → let t = (update protocol size s).1.0 in
        let req = create_request "system" "get_sysinfo" null none in
        let v = starting req s in
        (has : Bool) × (requests : List Value) × (responses : List Value) × (has_emeter v.0
          ≡ ok has)
        × (request_list size v.0.last_update
              (values (with_emeter protocol size has v.0).modules)
              (obj req)
              (first_size req)
            ≡ ok requests)
        × ((ask_all protocol size (nonempty requests) (with_emeter protocol size has v.0, v.1)).0
            ≡ ok responses)
        × (lookup key (fields_of t.last_update)
            ≡ latest key responses (lookup key (fields_of v.0.last_update)))
        × (sysinfo_of t.last_update ≡ ok t.sys_info)
  unfolding update
  update-IsFetched s key json h =
      let req = create_request "system" "get_sysinfo" null none in
      let updated = update-IsUpdated protocol size s h in
      let first = is_none s.0.last_update in
      let first_part = if_first protocol size first (initial_update protocol size req) in
      let (asks, e1, h1, r1) = bind-eq-ok (view protocol (λ s. ok (is_none s.last_update))) _ s h in
      let known : asks ≡ first = ok-injective (sym e1) in
      let run = λ (b : Bool).
        (if_first protocol size b (initial_update protocol size req)
            >> (modular_update protocol size req
                >> (view protocol (λ s. sysinfo_of s.last_update) >>= λ info.
                    on_device protocol (set_sys_info info))))
          s in
      let (_, _, h2, r2) = bind-eq-ok first_part _ s (ap (λ b. (run b).0) (sym known) ∙ h1) in
      let v = (first_part s).1 in
      let (_, e3, h3, r3) = bind-eq-ok (modular_update protocol size req) _ v h2 in
      let (has, requests, responses, merged, has_it, (listed, asked, merges, last)) =
        modular_update-eq-ok req v.0 v.1 e3 in
      let u = with_emeter protocol size has v.0 in
      let same = with_emeter-last protocol size has v.0 in
      let kept =
        ap (λ o. o.1.0.last_update) (r1 ∙ ap run known ∙ r2 ∙ r3)
        ∙ read_sysinfo-keeps (modular_update protocol size req v).1
        ∙ last in
      (
        has,
        requests,
        responses,
        has_it,
        subst (λ x. request_list size x (values u.modules) (obj req) (first_size req) ≡ ok requests)
            same listed,
        asked,
        ap (λ x. lookup key (fields_of x)) kept
            ∙ merge_responses-latest key u.last_update responses
                (ask_all-IsJson (nonempty requests) (u, v.1) json asked) merges
            ∙ ap (λ x. latest key responses (lookup key (fields_of x))) same,
        updated,
      )
