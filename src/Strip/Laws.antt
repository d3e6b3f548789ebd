-- ===== src/Strip/Laws.antt =====
-- After its first update a strip has one socket for each child in the sysinfo, and the time since when
-- a strip is on is the latest of its sockets.
use python_kasa.Prelude.{
  ℕ, ◌≡◌, refl, sym, ◌∙◌, ap, subst, Bool, true, false, List, [], ◌∷◌, ◌++◌, String, ◌=s=◌, All,
  arith, eq_iff, Bool-cases, inl, inr,
}
use mathlib.Core.Bool.{false≢true}
use mathlib.Core.List.{append_assoc, append-nil}
use python_kasa.Exec.{Result, NoneType, ok, ◌>>=◌, >>=-eq-ok, ok-injective}
use python_kasa.Exec.State.{bind-eq-ok}
use python_kasa.Json.{Value, null, flag, num, real, str, arr, obj, end, Items, nil, cons, index}
use python_kasa.Device.{Module, SmartDevice, Protocol}
use python_kasa.Device.Properties.{sys_info}
use python_kasa.Device.Updates.{update, modular_update}
use python_kasa.Strip
use python_kasa.Strip.{
  Socket, Strip, State, id_text, items, new_socket, add_children, initialize_children,
  update_sockets, update_children, update_strip,
}
use python_kasa.Strip.Sockets.{find_child, get_child_info}

-- The ids in the entries of the sysinfo.
abbrev pub ids_of : Items → Result (List String)
ids_of nil = ok []
ids_of (cons child rest) = index "id" child >>= λ (id : Value).
    id_text id >>= λ (t : String). ids_of rest >>= λ (ts : List String). ok (t ∷ ts)

abbrev pub ids : List Socket → List String
ids [] = []
ids (c ∷ cs) = c.child_id ∷ ids cs

ids-append : (cs ds : List Socket) → ids (cs ++ ds) ≡ ids cs ++ ids ds
ids-append [] ds = refl
ids-append (c ∷ cs) ds = ap (◌∷◌ c.child_id) (ids-append cs ds)

-- The sockets are those in the sysinfo.
abbrev pub Mirrors : Strip → Type 0
Mirrors s =
    (info : Value) × (v : Value) × (xs : Items) × (sys_info s.device ≡ ok info)
    × (index "children" info ≡ ok v)
    × (items v ≡ ok xs)
    × (ids_of xs ≡ ok (ids s.children))

module _ (modules_of : String → Module × Module) where
  new_socket-id :
      (child_id : String) (parent : SmartDevice) {c : Socket}
      → new_socket modules_of child_id parent ≡ ok c
      → c.child_id ≡ child_id
  unfolding new_socket
  new_socket-id child_id parent h = ground arith

module _ (protocol : Protocol) (size : ℕ) (modules_of : String → Module × Module) where
  open protocol use {World}

  -- The sockets that are appended have the ids of the entries, in their order.
  add_children-ids :
      (xs : Items) (s : Strip) (w : World) {r : NoneType}
      → (add_children protocol size modules_of xs (s, w)).0 ≡ ok r
      → (ts : List String) × (ids_of xs ≡ ok ts)
        × (ids (add_children protocol size modules_of xs (s, w)).1.0.children
            ≡ ids s.children ++ ts)
        × ((add_children protocol size modules_of xs (s, w)).1.0.device ≡ s.device)
  unfolding add_children
  add_children-ids nil s w h = ([], refl, sym (append-nil _), refl)
  add_children-ids (cons child rest) s w h =
      let (id, e1, _, f1) = bind-eq-ok _ _ (s, w) h in
      let (t, e2, _, f2) = bind-eq-ok _ _ (s, w) (rw f1 at h) in
      let (c, e3, _, f3) = bind-eq-ok _ _ (s, w) (rw (f1, f2) at h) in
      let (_, _, _, f4) = bind-eq-ok _ _ (s, w) (rw (f1, f2, f3) at h) in
      let last = f1 ∙ f2 ∙ f3 ∙ f4 in
      let grown = Strip.append c s in
      let (ts, found, appended, same) = add_children-ids rest grown w (rw last at h) in
      let new : c.child_id ≡ t = new_socket-id modules_of t s.device e3 in
      subst
        (λ (o : Result NoneType × State protocol).
          (us : List String) × (ids_of (cons child rest) ≡ ok us)
          × (ids o.1.0.children ≡ ids s.children ++ us)
          × (o.1.0.device ≡ s.device))
        (sym last)
        (
          t ∷ ts,
          ground (arith),
          appended
              ∙ ap (λ (us : List String). us ++ ts) (ids-append s.children (c ∷ []))
              ∙ append_assoc (ids s.children) (c.child_id ∷ []) ts
              ∙ ap (λ (u : String). ids s.children ++ (u ∷ ts)) new,
          same,
        )

  update_sockets-ids :
      (cs : List Socket) (w : World) → ids (update_sockets protocol size cs w).1.0 ≡ ids cs
  unfolding update_sockets
  update_sockets-ids [] w = refl
  update_sockets-ids (c ∷ cs) w =
      ground (arith, update_sockets-ids cs (modular_update protocol size end (c.device, w)).1.1)

  update_children-keeps :
      (s : State protocol)
      → let t = (update_children protocol size s).1.0 in
        (ids t.children ≡ ids s.0.children) × (t.device ≡ s.0.device)
  unfolding update_children
  update_children-keeps (s, w) = (update_sockets-ids s.children w, refl)

  initialize_children-Mirrors :
      (s : Strip) (w : World) {r : NoneType}
      → s.children ≡ []
      → (initialize_children protocol size modules_of (s, w)).0 ≡ ok r
      → Mirrors (initialize_children protocol size modules_of (s, w)).1.0
  unfolding initialize_children
  initialize_children-Mirrors s w empty h =
      let (info, e1, _, f1) = bind-eq-ok _ _ (s, w) h in
      let (v, e2, _, f2) = bind-eq-ok _ _ (s, w) (rw f1 at h) in
      let (xs, e3, _, f3) = bind-eq-ok _ _ (s, w) (rw (f1, f2) at h) in
      let last = f1 ∙ f2 ∙ f3 in
      let (ts, found, appended, same) = add_children-ids xs s w (rw last at h) in
      subst (λ (o : Result NoneType × State protocol). Mirrors o.1.0) (sym last)
        (
          info,
          v,
          xs,
          ap sys_info same ∙ e1,
          e2,
          e3,
          found ∙ ap ok (sym (appended ∙ ap (λ (cs : List Socket). ids cs ++ ts) empty)),
        )

  first-Mirrors :
      (first : Bool) (s : State protocol) {r : NoneType}
      → Strip.is_empty s.0.children ≡ first
      → s.0.children ≡ []
      → (Strip.when protocol first (initialize_children protocol size modules_of) s).0 ≡ ok r
      → Mirrors (Strip.when protocol first (initialize_children protocol size modules_of) s).1.0
  first-Mirrors true (s, w) test empty h = initialize_children-Mirrors s w empty h
  first-Mirrors false (s, w) test empty h = absurd (false≢true (sym test ∙ ap Strip.is_empty empty))

  update_children-Mirrors :
      (metered : Bool) (s : State protocol)
      → Mirrors s.0
      → Mirrors (Strip.when protocol metered (update_children protocol size) s).1.0
  update_children-Mirrors false s m = m
  update_children-Mirrors true s (info, v, xs, known, at_key, listed, found) =
      let (same, kept) = update_children-keeps s in
      (info, v, xs, ap sys_info kept ∙ known, at_key, listed, found ∙ ap ok (sym same))

  update_strip-Mirrors :
      (with_children : Bool) (s : State protocol) {r : NoneType}
      → s.0.children ≡ []
      → (update_strip protocol size modules_of with_children s).0 ≡ ok r
      → Mirrors (update_strip protocol size modules_of with_children s).1.0
  unfolding update_strip
  update_strip-Mirrors with_children s empty h =
      let (_, e1, _, f1) = bind-eq-ok _ _ s h in
      let p = (Strip.on_parent protocol (update protocol size) s).1 in
      let (first, e2, _, f2) = bind-eq-ok _ _ p (rw f1 at h) in
      let (_, e3, _, f3) = bind-eq-ok _ _ p (rw (f1, f2) at h) in
      let q = (Strip.when protocol first (initialize_children protocol size modules_of) p).1 in
      let (metered, e4, _, f4) = bind-eq-ok _ _ q (rw (f1, f2, f3) at h) in
      subst (λ (o : Result NoneType × State protocol). Mirrors o.1.0) (sym (f1 ∙ f2 ∙ f3 ∙ f4))
        (update_children-Mirrors metered q (first-Mirrors first p (ok-injective e2) empty e3))

-- The socket finds itself in the entries.
abbrev pub Finds : Items → String → Type 0
Finds xs t = (v : Value) × (find_child t xs ≡ ok v) × (index "id" v ≡ ok (str t))

id_text-str : (v : Value) {t : String} → id_text v ≡ ok t → v ≡ str t
id_text-str (str s) h = ap str (ok-injective h)
id_text-str null h = cc
id_text-str (flag b) h = cc
id_text-str (num n) h = cc
id_text-str (real x) h = cc
id_text-str (arr xs) h = cc
id_text-str (obj d) h = cc

Finds-cons :
    (child : Value) (rest : Items) (t : String)
    → index "id" child ≡ ok (str t)
    → (us : List String) → All (Finds rest) us
    → All (Finds (cons child rest)) us
unfolding find_child
Finds-cons child rest t e [] h = tt
Finds-cons child rest t e (u ∷ us) ((v, found, id), hs) = (
  elim (Bool-cases (t =s= u)) [
    | inl same ↦ (child, ground arith, ground (arith, eq_iff t u))
    | inr other ↦ (v, ground arith, id)
  ],
  Finds-cons child rest t e us hs,
)

Finds-here :
    (child : Value) (rest : Items) (t : String)
    → index "id" child ≡ ok (str t)
    → Finds (cons child rest) t
unfolding find_child
Finds-here child rest t e = (child, ground (arith, eq_iff t t), e)

ids_of-Finds : (xs : Items) {ts : List String} → ids_of xs ≡ ok ts → All (Finds xs) ts
ids_of-Finds nil h = subst (All (Finds nil)) (ok-injective h) tt
ids_of-Finds (cons child rest) h =
    let (id, e1, h1) = >>=-eq-ok (index "id" child) _ h in
    let (t, e2, h2) = >>=-eq-ok (id_text id) _ h1 in
    let (ts, e3, h3) = >>=-eq-ok (ids_of rest) _ h2 in
    let here : index "id" child ≡ ok (str t) = e1 ∙ ap ok (id_text-str id e2) in
    subst (All (Finds (cons child rest))) (ok-injective h3)
      (Finds-here child rest t here, Finds-cons child rest t here ts (ids_of-Finds rest e3))

-- The information of a socket can be read, and is that of its own id.
abbrev pub IsListed : SmartDevice → Socket → Type 0
IsListed parent c =
    (v : Value) × (get_child_info c.child_id parent ≡ ok v) × (index "id" v ≡ ok (str c.child_id))

Finds-IsListed :
    (parent : SmartDevice) (info v : Value) (xs : Items)
    → sys_info parent ≡ ok info
    → index "children" info ≡ ok v
    → items v ≡ ok xs
    → (cs : List Socket) → All (Finds xs) (ids cs)
    → All (IsListed parent) cs
unfolding get_child_info
Finds-IsListed parent info v xs e1 e2 e3 [] h = tt
Finds-IsListed parent info v xs e1 e2 e3 (c ∷ cs) ((own, found, id), hs) =
    ((own, ground arith, id), Finds-IsListed parent info v xs e1 e2 e3 cs hs)

module _ (protocol : Protocol) (size : ℕ) (modules_of : String → Module × Module) where
  -- After the first update of a strip that returns, its sockets are the children of the sysinfo, one for
  -- each and in their order, and every socket finds its own entry there, so that its state can be read.
  pub update_strip-IsListed :
      (with_children : Bool) (s : State protocol) {r : NoneType}
      → s.0.children ≡ []
      → (update_strip protocol size modules_of with_children s).0 ≡ ok r
      → let t = (update_strip protocol size modules_of with_children s).1.0 in
        Mirrors t × All (IsListed t.device) t.children
  update_strip-IsListed with_children s empty h =
      let t = (update_strip protocol size modules_of with_children s).1.0 in
      let m = update_strip-Mirrors protocol size modules_of with_children s empty h in
      let (info, v, xs, e1, e2, e3, e4) = m in
      (m, Finds-IsListed t.device info v xs e1 e2 e3 t.children (ids_of-Finds xs e4))
