-- ===== src/Tapo/Laws.antt =====
-- What an update of a Tapo device leaves, and what a Tapo bulb is asked for.
use python_kasa.Prelude.{◌≡◌, refl, sym, subst, Bool, true, false, not, Option, some, String, arith}
use python_kasa.Exec.{Error, Result, NoneType, ok, err, authentication}
use python_kasa.Exec.State.{Exec, ◌>>=◌, continue, throw_if}
use python_kasa.Exec.Triple.{
  Triple, Triple-bind, Triple-modify, Triple-Keeps, Post, Post-ok, Post-err,
}
use python_kasa.Json.{Value, Fields, lookup, put}
use python_kasa.Http.Smart.{Request}
use python_kasa.Tapo.{TapoDevice, Protocol, State, fetch, update, has_username, new_data}
use python_kasa.Tapo.Plug

module _ (protocol : Protocol) where
  -- An update without a user name raises AuthenticationException, and nothing is asked.
  update-refused :
      (s : State protocol)
      → has_username s.0.credentials ≡ false
      → update protocol s ≡ (err authentication, s)
  unfolding update ◌>>=◌
  update-refused s h = rw h refl

  -- A query whose answer is kept, and what follows it: `R v` holds of the device once `v` is kept.
  fetch-bind :
      (P E : TapoDevice → Type 0) (R : Value → TapoDevice → Type 0) {Q : State protocol → Type 0}
      (request : Request) (store : Value → TapoDevice → TapoDevice)
      (next : Value → Exec (State protocol) NoneType)
      → ((v : Value) (d : TapoDevice) → P d → R v (store v d))
      → ((d : TapoDevice) → P d → E d)
      → ((v : Value) → Triple (λ s. R v s.0) (next v) Q (λ s. E s.0))
      → Triple (λ s. P s.0) (fetch protocol request store >>= next) Q (λ s. E s.0)
  unfolding fetch ◌>>=◌
  fetch-bind P E R {Q} request store next kept failed rest = record {
    at = λ (d, w) h. by_answer d (protocol.query request w) h;
  }
    where
      by_answer :
          (d : TapoDevice) (o : Result Value × protocol.World)
          → P d
          → let r : Result Value × State protocol = elim o.0 [
            | err e ↦ (err e, (d, o.1))
            | ok v ↦ (ok v, (store v d, o.1))
          ] in
            Post Q (λ s. E s.0) (continue r.0 next r.1)
      by_answer d (ok v, w) h = (rest v).at (store v d, w) (kept v d h)
      by_answer d (err e, w) h = failed d h

  -- The dict of an update has what the attributes have.
  abbrev pub IsFetched : TapoDevice → Type 0
  IsFetched d =
      (c : Value) × (i : Value) × (u : Value) × (t : Value) × (d.components ≡ some c)
      × (d.info ≡ some i)
      × (d.usage ≡ some u)
      × (d.time ≡ some t)
      × (d.data_ ≡ some (new_data protocol c i u t))

  Before : Option Fields → TapoDevice → Type 0
  Before last d = d.data_ ≡ last

  update-Triple :
      (last : Option Fields)
      → Triple (λ s. Before last s.0) (update protocol) (λ s. IsFetched s.0) (λ s. Before last s.0)
  unfolding update Before
  update-Triple last =
      Triple-bind (λ s. Before last s.0) _ _
        (Triple-Keeps _ (record { at = λ s h. by_name (not (has_username s.0.credentials)) s h })
          (λ s h. h))
        λ _.
          fetch-bind (Before last) (Before last) (λ c d. Before last d × (d.components ≡ some c)) _
            _ _ (λ v d h. (h, refl)) (λ d h. h)
            λ c.
              fetch-bind (λ d. Before last d × (d.components ≡ some c)) (Before last)
                (λ i d. Before last d × (d.components ≡ some c) × (d.info ≡ some i)) _ _ _
                (λ v d h. (h.0, h.1, refl)) (λ d h. h.0)
                λ i.
                  fetch-bind (λ d. Before last d × (d.components ≡ some c) × (d.info ≡ some i))
                    (Before last)
                    (λ u d.
                      Before last d
                      × (d.components ≡ some c)
                      × (d.info ≡ some i)
                      × (d.usage ≡ some u))
                    _ _ _ (λ v d h. (h.0, h.1, h.2, refl)) (λ d h. h.0)
                    λ u.
                      fetch-bind
                        (λ d.
                          Before last d
                          × (d.components ≡ some c)
                          × (d.info ≡ some i)
                          × (d.usage ≡ some u))
                        (Before last)
                        (λ t d.
                          (d.components ≡ some c)
                          × (d.info ≡ some i)
                          × (d.usage ≡ some u)
                          × (d.time ≡ some t))
                        _ _ _ (λ v d h. (h.1, h.2, h.3, refl)) (λ d h. h.0)
                        λ t. Triple-modify _ (λ s h. (c, i, u, t, h.0, h.1, h.2, h.3, refl))
    where
      by_name :
          (b : Bool) (s : State protocol)
          → Before last s.0
          → Before last (throw_if b authentication s).1.0
      by_name true s h = h
      by_name false s h = h

  -- After an update that returns, the dict that stands for the last update holds the four answers that
  -- the attributes hold.
  pub update-IsFetched :
      (s : State protocol) {r : NoneType}
      → (update protocol s).0 ≡ ok r
      → IsFetched (update protocol s).1.0
  unfolding Before
  update-IsFetched s h = Post-ok _ _ (update protocol s) ((update-Triple s.0.data_).at s refl) h

  -- An update that raises leaves that dict as it was.
  pub update-keeps :
      (s : State protocol) (e : Error)
      → (update protocol s).0 ≡ err e
      → (update protocol s).1.0.data_ ≡ s.0.data_
  unfolding Before
  update-keeps s e h = Post-err _ _ (update protocol s) ((update-Triple s.0.data_).at s refl) h

  -- Each answer of a plug is in its dict and in its attribute.
  abbrev pub IsMirrored : TapoDevice → Type 0
  IsMirrored d =
      (f : Fields) × (d.data_ ≡ some f)
      × (lookup "components" f ≡ d.components)
      × (lookup "info" f ≡ d.info)
      × (lookup "usage" f ≡ d.usage)
      × (lookup "time" f ≡ d.time)
      × (lookup "energy" f ≡ d.energy)
      × (lookup "emeter" f ≡ d.emeter)

  Anything : TapoDevice → Type 0
  Anything d = Unit

  put_data-stored :
      (key : String) (v : Value) (s : State protocol) {f : Fields}
      → s.0.data_ ≡ some f
      → Plug.put_data protocol key v s ≡ (ok tt, (record s.0 { data_ = some (put key v f) }, s.1))
  unfolding Plug.put_data
  put_data-stored key v (d, w) h = ground arith

  both_stored :
      (e m : Value) (s : State protocol) {f : Fields}
      → s.0.data_ ≡ some f
      → (Plug.put_data protocol "energy" e >>= λ (_ : NoneType). Plug.put_data protocol "emeter" m)
          s
        ≡ (ok tt, (record s.0 { data_ = some (put "emeter" m (put "energy" e f)) }, s.1))
  unfolding ◌>>=◌
  both_stored e m s {f} h =
      let t : State protocol = (record s.0 { data_ = some (put "energy" e f) }, s.1) in
      rw (put_data-stored "energy" e s h) (put_data-stored "emeter" m t refl)

  store_answers :
      (e m : Value)
      → Triple
          (λ s. IsFetched s.0 × (s.0.energy ≡ some e) × (s.0.emeter ≡ some m))
          (Plug.put_data protocol "energy" e >>= λ (_ : NoneType).
            Plug.put_data protocol "emeter" m)
          (λ s. IsMirrored s.0)
          (λ s. Anything s.0)
  unfolding lookup put
  store_answers e m = record {
    at = λ s ((c, i, u, t, h1, h2, h3, h4, h5), h6, h7).
        subst (Post (λ x. IsMirrored x.0) (λ x. Anything x.0)) (sym (both_stored e m s h5)) (
          put "emeter" m (put "energy" e (new_data protocol c i u t)),
          refl,
          sym h1,
          sym h2,
          sym h3,
          sym h4,
          sym h6,
          sym h7,
        );
  }

  plug_update-Triple :
      Triple {S = State protocol}
        (λ s. Anything s.0)
        (Plug.update protocol)
        (λ s. IsMirrored s.0)
        (λ s. Anything s.0)
  unfolding Plug.update Anything
  plug_update-Triple =
      Triple-bind (λ s. IsFetched s.0) _ _
        (record {
          at = λ s h.
              weaken s.0.data_ (update protocol s)
                ((update-Triple s.0.data_).at s (unfold Before in refl));
        })
        λ _.
          fetch-bind IsFetched Anything (λ e d. IsFetched d × (d.energy ≡ some e)) _ _ _
            (λ v d h. (h, refl)) (λ d h. tt)
            λ e.
              fetch-bind (λ d. IsFetched d × (d.energy ≡ some e)) Anything
                (λ m d. IsFetched d × (d.energy ≡ some e) × (d.emeter ≡ some m)) _ _ _
                (λ v d h. (h.0, h.1, refl)) (λ d h. tt) λ m. store_answers e m
    where
      weaken :
          (last : Option Fields) (o : Result NoneType × State protocol)
          → Post (λ s. IsFetched s.0) (λ s. Before last s.0) o
          → Post (λ s. IsFetched s.0) (λ s. Anything s.0) o
      weaken last (ok v, s) h = h
      weaken last (err e, s) h = tt

  -- After an update of a plug that returns, each of the six answers is in the dict of the last update
  -- as it is in the attribute of its own.
  pub plug_update-IsMirrored :
      (s : State protocol) {r : NoneType}
      → (Plug.update protocol s).0 ≡ ok r
      → IsMirrored (Plug.update protocol s).1.0
  unfolding Anything
  plug_update-IsMirrored s h = Post-ok _ _ (Plug.update protocol s) (plug_update-Triple.at s tt) h
