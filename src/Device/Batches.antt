-- ===== src/Device/Batches.antt =====
-- How an update splits its query into requests (`_modular_update`, kasa/smartdevice.py).
use python_kasa.Prelude.{
  ℕ, ◌+◌, ◌≤◌, ◌≡◌, refl, ◌∙◌, ap, subst, Bool, true, false, List, [], ◌∷◌, ◌++◌, ltb, arith, ◌⊎◌,
  inl, inr, length, All,
}
use python_kasa.Exec.{Result, ok, ◌>>=◌, >>=-eq-ok, ok-injective}
use python_kasa.Json.{Value, obj, end}
use python_kasa.Json.Merge.{merge}
use python_kasa.Device.{Module, is_supported}

-- The requests that are complete, the one under way, and the size estimated for its response.
pub record Batch : Type 0 where
  pub done : List Value
  pub request : Value
  pub est_response_size : ℕ

-- The body of the loop for a module that is supported, where `full` tells that its response does
-- not fit any more.
unfoldable pub put_query : Module → Batch → Bool → Result Batch
put_query m b true = do
  req ← merge (obj end) m.query
  ok (record { done = b.request ∷ []; request = req; est_response_size = m.response_size })
put_query m b false = do
  req ← merge b.request m.query
  ok (record {
    done = [];
    request = req;
    est_response_size = b.est_response_size + m.response_size;
  })

abbrev place : ℕ → Module → Batch → Bool → Result Batch
place max m b true = put_query m b (ltb max (b.est_response_size + m.response_size))
place max m b false = ok (record b { done = [] })

-- The loop over the modules, from a request under way on.
unfoldable pub request_list : ℕ → Value → List Module → Value → ℕ → Result (List Value)
unfolding put_query
request_list max last_update [] req size = ok (req ∷ [])
request_list max last_update (m ∷ ms) req size = do
  supported ← is_supported last_update m
  next ← place max m (record { done = []; request = req; est_response_size = size }) supported
  rest ← request_list max last_update ms next.request next.est_response_size
  ok (next.done ++ rest)

-- The modules that are asked.
abbrev keep : Bool → Module → List Module → List Module
keep true m ms = m ∷ ms
keep false m ms = ms

unfoldable pub supported_modules : Value → List Module → Result (List Module)
supported_modules last_update [] = ok []
supported_modules last_update (m ∷ ms) = do
  supported ← is_supported last_update m
  rest ← supported_modules last_update ms
  ok (keep supported m rest)

abbrev pub total_size : List Module → ℕ
total_size [] = 0
total_size (m ∷ ms) = m.response_size + total_size ms

-- One query for a group of modules.
unfoldable pub merge_all : Value → List Module → Result Value
merge_all req [] = ok req
merge_all req (m ∷ ms) = do next ← merge req m.query; merge_all next ms

abbrev pub concat : List (List Module) → List Module
concat [] = []
concat (g ∷ gs) = g ++ concat gs

-- A group fits the response, or is a single module, whose query cannot be split.
abbrev pub Fits : ℕ → List Module → Type 0
Fits max g = (total_size g ≤ max) ⊎ (length g ≡ 1)

-- The queries of groups, the first of which continues `req`.
unfoldable pub merged_groups : Value → List Module → List (List Module) → Result (List Value)
unfolding merge_all
merged_groups req g [] = do r ← merge_all req g; ok (r ∷ [])
merged_groups req g (h ∷ hs) = do
  r ← merge_all req g
  rs ← merged_groups (obj end) h hs
  ok (r ∷ rs)

merge_all-cons :
    (req : Value) (m : Module) (g : List Module) {next : Value}
    → merge req m.query ≡ ok next
    → merge_all req (m ∷ g) ≡ merge_all next g
unfolding merge_all
merge_all-cons req m g e = rw e refl

merged_groups-cons :
    (req : Value) (m : Module) (g : List Module) (gs : List (List Module)) {next : Value}
    → merge req m.query ≡ ok next
    → merged_groups req (m ∷ g) gs ≡ merged_groups next g gs
unfolding merged_groups
merged_groups-cons req m g [] e = rw (merge_all-cons req m g e) refl
merged_groups-cons req m g (h ∷ hs) e = rw (merge_all-cons req m g e) refl

-- The request under way goes on with `g`: what it holds and `g` together fit.
abbrev pub Continues : ℕ → ℕ → List Module → Type 0
Continues max size g = (g ≡ []) ⊎ (size + total_size g ≤ max)

-- What the loop makes of the modules from a request under way on.
abbrev pub IsSplit : ℕ → Value → ℕ → List Module → List Value → Type 0
IsSplit max req size ms requests =
    (g : List Module) × (gs : List (List Module)) × (g ++ concat gs ≡ ms)
    × (merged_groups req g gs ≡ ok requests)
    × Continues max size g
    × All (Fits max) gs

-- A module that goes into the request under way.
IsSplit-add :
    (max size : ℕ) (req next : Value) (m : Module) (ms : List Module) (rs : List Value)
    → merge req m.query ≡ ok next
    → size + m.response_size ≤ max
    → IsSplit max next (size + m.response_size) ms rs
    → IsSplit max req size (m ∷ ms) rs
IsSplit-add max size req next m ms rs e room (g, gs, all, merged, fits, rest) = (
  m ∷ g,
  gs,
  ap (λ (l : List Module). m ∷ l) all,
  merged_groups-cons req m g gs e ∙ merged,
  inr (ground arith),
  rest,
)

-- A group that was begun by one module.
Fits-single :
    (max : ℕ) (m : Module) (g : List Module) → Continues max m.response_size g → Fits max (m ∷ g)
Fits-single max m g h = ground arith

-- A module that begins the next request.
IsSplit-next :
    (max size : ℕ) (req next : Value) (m : Module) (ms : List Module) (rs : List Value)
    → merge (obj end) m.query ≡ ok next
    → IsSplit max next m.response_size ms rs
    → IsSplit max req size (m ∷ ms) (req ∷ rs)
IsSplit-next max size req next m ms rs e (g, gs, all, merged, fits, rest) = (
  [],
  (m ∷ g) ∷ gs,
  ap (λ (l : List Module). m ∷ l) all,
  unfold merged_groups in rw (merged_groups-cons (obj end) m g gs e, merged) refl,
  inl refl,
  (Fits-single max m g fits, rest),
)

-- What the loop makes of the rest, it makes of the whole.
abbrev Extends : ℕ → ℕ → Value → List Module → List Module → List Value → Batch → Type 0
Extends max size req ms kept rs b =
    IsSplit max b.request b.est_response_size kept rs → IsSplit max req size ms (b.done ++ rs)

put_query-Extends :
    (max size : ℕ) (req : Value) (m : Module) (kept : List Module) (rs : List Value) (full : Bool)
    {next : Batch}
    → (full ≡ false → size + m.response_size ≤ max)
    → put_query m (record { done = []; request = req; est_response_size = size }) full ≡ ok next
    → Extends max size req (m ∷ kept) kept rs next
unfolding put_query
put_query-Extends max size req m kept rs true room e =
    let (r, e1, e2) = >>=-eq-ok (merge (obj end) m.query) _ e in
    subst (Extends max size req (m ∷ kept) kept rs) (ok-injective e2)
      (IsSplit-next max size req r m kept rs e1)
put_query-Extends max size req m kept rs false room e =
    let (r, e1, e2) = >>=-eq-ok (merge req m.query) _ e in
    subst (Extends max size req (m ∷ kept) kept rs) (ok-injective e2)
      (IsSplit-add max size req r m kept rs e1 (room refl))

place-Extends :
    (max size : ℕ) (req : Value) (m : Module) (kept : List Module) (rs : List Value)
    (supported : Bool) {next : Batch}
    → place max m (record { done = []; request = req; est_response_size = size }) supported
      ≡ ok next
    → Extends max size req (keep supported m kept) kept rs next
place-Extends max size req m kept rs false e =
    subst (Extends max size req kept kept rs) (ok-injective e) (λ h. h)
place-Extends max size req m kept rs true e =
    put_query-Extends max size req m kept rs (ltb max (size + m.response_size)) (λ h. ground arith)
      e

-- The requests of an update are the merged queries of groups of consecutive modules, of which the
-- first continues the request given: each module that the device supports is in exactly one group,
-- in order, no other module is, and the response to each request is estimated to fit, unless the
-- request is for a single module or is the given one alone.
pub request_list-IsSplit :
    (max : ℕ) (last_update : Value) (ms : List Module) (req : Value) (size : ℕ)
    {requests : List Value}
    → request_list max last_update ms req size ≡ ok requests
    → (kept : List Module) × (supported_modules last_update ms ≡ ok kept)
      × IsSplit max req size kept requests
unfolding request_list supported_modules
request_list-IsSplit max last_update [] req size h =
    ([], refl, ([], [], refl, unfold merged_groups merge_all in h, inl refl, tt))
request_list-IsSplit max last_update (m ∷ ms) req size h =
    let (supported, e1, h1) = >>=-eq-ok (is_supported last_update m) _ h in
    let (next, e2, h2) =
      >>=-eq-ok
        (place max m (record { done = []; request = req; est_response_size = size }) supported) _
        h1 in
    let (rest, e3, h3) =
      >>=-eq-ok (request_list max last_update ms next.request next.est_response_size) _ h2 in
    let (kept, known, split) =
      request_list-IsSplit max last_update ms next.request next.est_response_size e3 in
    (
      keep supported m kept,
      rw (e1, known) refl,
      subst (IsSplit max req size (keep supported m kept)) (ok-injective h3)
          (place-Extends max size req m kept rest supported e2 split),
    )
