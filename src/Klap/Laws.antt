-- ===== src/Klap/Laws.antt =====
-- What the KLAP handshake proves of the device, and the state that it leaves.
use python_kasa.Prelude.Int.{ℤ}
use python_kasa.Credentials.{Credentials, blank}
use python_kasa.Prelude.{
  [], ◌∷◌, refl, ◌∙◌, ℕ, ◌≡◌, ◌⊎◌, true, Option, none, some, arith, take, drop, ◌==◌,
}
use python_kasa.Exec.{Result, ok, err}
use python_kasa.Exec.State.{◌>>=◌}
use python_kasa.Bytes.{Bytes, equal→≡}
use python_kasa.Klap
use python_kasa.Klap.{Surroundings, KlapTransport, Endpoint, request}
use python_kasa.Klap.Hashes.{
  Version, handshake1_seed_auth_hash, generate_auth_hash, kasa_setup, cached,
}

module _ (v : Version) (env : Surroundings) where
  -- The hash is that of the user's credentials, of those of the kasa setup or of blank ones.
  abbrev pub IsKnown : Credentials → Bytes → Type 0
  IsKnown user auth =
      (generate_auth_hash env.crypto v user ≡ ok auth)
      ⊎ (generate_auth_hash env.crypto v kasa_setup ≡ ok auth)
      ⊎ (generate_auth_hash env.crypto v blank ≡ ok auth)

  -- A hash that is kept is that of these credentials.
  abbrev pub IsCacheOf : Option Bytes → Credentials → Type 0
  IsCacheOf cache credentials =
      (a : Bytes) → cache ≡ some a → generate_auth_hash env.crypto v credentials ≡ ok a

  -- The three hashes that a transport keeps are those of their credentials.
  abbrev pub IsCached : Credentials → KlapTransport v env → Type 0
  IsCached user s =
      (generate_auth_hash env.crypto v user ≡ ok s.local_auth_hash)
      × IsCacheOf s.kasa_setup_auth_hash kasa_setup
      × IsCacheOf s.blank_auth_hash blank

  -- A new transport keeps the hash of its credentials.
  pub init-IsCached :
      (credentials : Option Credentials) (world : env.World) (s : KlapTransport v env)
      → Klap.init v env credentials world ≡ ok s
      → IsCached s.credentials s
  unfolding Klap.init
  init-IsCached credentials world s h = ground arith

  cached-IsCacheOf :
      (cache : Option Bytes) (credentials : Credentials)
      → IsCacheOf cache credentials
      → (auth : Bytes) → cached cache (generate_auth_hash env.crypto v credentials) ≡ ok auth
      → generate_auth_hash env.crypto v credentials ≡ ok auth
  cached-IsCacheOf none credentials known auth h = h
  cached-IsCacheOf (some []) credentials known auth h = h
  cached-IsCacheOf (some (b ∷ bs)) credentials known auth h = known (b ∷ bs) refl ∙ h

  -- What an agreement says of the device's answer.
  abbrev pub IsProved :
      Credentials
      → Bytes
      → Bytes
      → Bytes
      → Result (Bytes × Bytes × Bytes) × KlapTransport v env
      → Type 0
  IsProved user local remote server (ok (l, r, auth), s) =
      (l ≡ local)
      × (r ≡ remote)
      × (handshake1_seed_auth_hash env.crypto v local remote auth ≡ server)
      × IsKnown user auth
  IsProved user local remote server (err e, s) = Unit

  IsProved-ok :
      (user : Credentials) (local remote server : Bytes)
      (o : Result (Bytes × Bytes × Bytes) × KlapTransport v env) {l r auth : Bytes}
      → IsProved user local remote server o
      → o.0 ≡ ok (l, r, auth)
      → (l ≡ local)
        × (r ≡ remote)
        × (handshake1_seed_auth_hash env.crypto v l r auth ≡ server)
        × IsKnown user auth
  IsProved-ok user local remote server (ok (l, r, auth), s) h e = ground arith
  IsProved-ok user local remote server (err x, s) h e = cc

  check_blank-IsProved :
      (user : Credentials) (local remote server : Bytes) (s : KlapTransport v env)
      → IsCacheOf s.blank_auth_hash blank
      → IsProved user local remote server (Klap.check_blank v env local remote server s)
  unfolding Klap.check_blank ◌>>=◌
  check_blank-IsProved user local remote server s known =
      let fresh = cached-IsCacheOf s.blank_auth_hash blank known in grind (arith, equal→≡, fresh)

  check_kasa_setup-IsProved :
      (user : Credentials) (local remote server : Bytes) (s : KlapTransport v env)
      → IsCacheOf s.kasa_setup_auth_hash kasa_setup
      → IsCacheOf s.blank_auth_hash blank
      → IsProved user local remote server (Klap.check_kasa_setup v env local remote server s)
  unfolding Klap.check_kasa_setup ◌>>=◌
  check_kasa_setup-IsProved user local remote server s known blank_known =
      let fresh = cached-IsCacheOf s.kasa_setup_auth_hash kasa_setup known in
      grind (arith, equal→≡, fresh, check_blank-IsProved user local remote server)

  check_local-IsProved :
      (user : Credentials) (local remote server : Bytes) (s : KlapTransport v env)
      → IsCached user s
      → IsProved user local remote server (Klap.check_local v env local remote server s)
  unfolding Klap.check_local ◌>>=◌
  check_local-IsProved user local remote server s (own, setup, blank_known) =
      grind (arith, equal→≡, check_kasa_setup-IsProved user local remote server s setup blank_known)

  client_post-IsCached :
      (user : Credentials) (endpoint : Endpoint) (seq : Option ℤ) (payload : Bytes)
      (s : KlapTransport v env)
      → IsCached user s
      → IsCached user (Klap.client_post v env endpoint seq payload s).1
  unfolding Klap.client_post
  client_post-IsCached user endpoint seq payload s h =
      received
        (env.post
          (record {
            endpoint = endpoint;
            seq = seq;
            payload = payload;
            cookie = Klap.sent_cookie s.session_cookie;
          })
          s.world).0
        _
    where
      received :
          (r : Result Klap.Response) (w : env.World)
          → IsCached user
              (Klap.receive v env r
                (record s { client_open = true; client_cookie = none; world = w })).1
      received (ok r) w = h
      received (err e) w = h

  -- The answer to the first message of a handshake, whose payload is a fresh seed.
  abbrev pub first_answer : KlapTransport v env → Result (ℕ × Option Bytes)
  first_answer s =
      let seed = env.token_bytes s.world in
      (Klap.client_post v env Endpoint.handshake1 none seed.0 (record s { world = seed.1 })).0

  -- Of a transport whose hashes are those of their credentials, handshake 1 returns only if the device
  -- answered with status 200 and a body that ends in the hash of the fresh seed and of credentials that
  -- the client knows: the user's, those of the kasa setup, or blank ones.
  pub perform_handshake1-proof :
      (s : KlapTransport v env) {local remote auth : Bytes}
      → IsCached s.credentials s
      → (Klap.perform_handshake1 v env s).0 ≡ ok (local, remote, auth)
      → (body : Bytes) × (first_answer s ≡ ok (200, some body))
        × (local ≡ (env.token_bytes s.world).0)
        × (remote ≡ take 16 body)
        × (handshake1_seed_auth_hash env.crypto v local remote auth ≡ drop 16 body)
        × IsKnown s.credentials auth
  unfolding Klap.perform_handshake1 ◌>>=◌
  perform_handshake1-proof s {local} {remote} {auth} kept h =
      by_answer
        (Klap.client_post v env Endpoint.handshake1 none (env.token_bytes s.world).0
          (record s { world = (env.token_bytes s.world).1 }))
        (client_post-IsCached s.credentials Endpoint.handshake1 none (env.token_bytes s.world).0
          (record s { world = (env.token_bytes s.world).1 }) kept)
        h
    where
      check :
          Result (ℕ × Option Bytes) × KlapTransport v env
          → Result (Bytes × Bytes × Bytes) × KlapTransport v env
      check (o, t) =
          ((λ u. (o, u)) >>= λ answer. Klap.expect_body v env answer.0 answer.1 >>= λ body.
          Klap.check_local v env (env.token_bytes s.world).0 (take 16 body) (drop 16 body))
            t

      by_answer :
          (o : Result (ℕ × Option Bytes) × KlapTransport v env)
          → IsCached s.credentials o.1
          → (check o).0 ≡ ok (local, remote, auth)
          → (body : Bytes) × (o.0 ≡ ok (200, some body))
            × (local ≡ (env.token_bytes s.world).0)
            × (remote ≡ take 16 body)
            × (handshake1_seed_auth_hash env.crypto v local remote auth ≡ drop 16 body)
            × IsKnown s.credentials auth
      by_answer (err e, t) held h = cc
      by_answer (ok (status, none), t) held h = cc
      by_answer (ok (status, some body), t) held h =
          let m =
            Klap.check_local v env (env.token_bytes s.world).0 (take 16 body) (drop 16 body) in
          let fine : (status == 200) ≡ true = ground arith in
          let run : (m t).0 ≡ ok (local, remote, auth) = rw fine at h in
          let proved =
            check_local-IsProved s.credentials (env.token_bytes s.world).0 (take 16 body)
              (drop 16 body) t held in
          let (l, r, hash, known) = IsProved-ok s.credentials _ _ _ (m t) proved run in
          (body, ground arith, l, r, hash, known)
