-- ===== src/Strip/Times.antt =====
-- Since when a strip is on: the latest of the times of its sockets (kasa/smartstrip.py).
use python_kasa.Prelude.{
  ◌≡◌, refl, Bool, true, false, List, [], ◌∷◌, Option, none, some, is_some, All, arith, Bool-cases,
  inl, inr, if◌then◌else◌,
}
use mathlib.Core.List.{Memᴰ}
use mathlib.Core.List.Memᴰ.{head, tail}
use python_kasa.Prelude.Int.{ℤ, ◌≤ℤ◌, ltb_ℤ}
use python_kasa.Exec.{ok, >>=-eq-ok, ok-injective}
use python_kasa.Numbers.{Float}
use python_kasa.Device.{requires_update, is_none}
use python_kasa.Strip.{Socket, Strip}
use python_kasa.Strip.Outlets.{is_on, any_on, times_on, max, larger, on_since}
use python_kasa.Strip.Sockets

le-trans : (a b c : ℤ) → a ≤ℤ b → b ≤ℤ c → a ≤ℤ c
le-trans a b c h k = omega arith

larger-le : (best : ℤ) (ts : List ℤ) → (best ≤ℤ larger best ts) × All (λ t. t ≤ℤ larger best ts) ts
larger-le best [] = (omega arith, tt)
larger-le best (t ∷ ts) =
    let next = if ltb_ℤ best t then t else best in
    let old : best ≤ℤ next = ground arith in
    let new : t ≤ℤ next = ground arith in
    let (up, rest) = larger-le next ts in
    (le-trans best next (larger next ts) old up, (le-trans t next (larger next ts) new up, rest))

larger-Mem : (best : ℤ) (ts : List ℤ) → Memᴰ (larger best ts) (best ∷ ts)
larger-Mem best [] = head refl
larger-Mem best (t ∷ ts) = elim (Bool-cases (ltb_ℤ best t)) [
  | inl less ↦ rw less (tail (larger-Mem t ts))
  | inr not_less ↦
      rw not_less
        (elim (larger-Mem best ts) [ head same ↦ head same | tail later ↦ tail (tail later) ])
]

module _ (rounded : Float → ℤ) (now : ℤ) (s : Strip) where
  socket_time :
      (c : Socket) {t : Option ℤ}
      → Sockets.is_on s.device c ≡ ok true
      → Sockets.on_since rounded now s.device c ≡ ok t
      → is_some t ≡ true
  unfolding Sockets.on_since Sockets.is_off
  socket_time c on h = ground arith

  -- If some socket is on, the times that are compared are not empty.
  times_on-max :
      (cs : List Socket) {ts : List ℤ}
      → any_on s cs ≡ ok true
      → times_on rounded now s cs ≡ ok ts
      → (t : ℤ) × (max ts ≡ ok t) × Memᴰ t ts × All (λ x. x ≤ℤ t) ts
  unfolding any_on times_on
  times_on-max [] on h = cc
  times_on-max (c ∷ cs) on h =
      let (b, e1, on1) = >>=-eq-ok (Sockets.is_on s.device c) _ on in
      let (t, e2, h1) = >>=-eq-ok (Sockets.on_since rounded now s.device c) _ h in
      let (rest, e3, h2) = >>=-eq-ok (times_on rounded now s cs) _ h1 in
      by_socket b t rest e1 e2 on1 (ok-injective h2) (λ others. times_on-max cs others e3)
    where
      by_socket :
          (b : Bool) (t : Option ℤ) (rest : List ℤ) {ts : List ℤ}
          → Sockets.is_on s.device c ≡ ok b
          → Sockets.on_since rounded now s.device c ≡ ok t
          → (if b then ok true else any_on s cs) ≡ ok true
          → (elim t [ none ↦ rest | some x ↦ x ∷ rest ]) ≡ ts
          → (any_on s cs ≡ ok true
              → (u : ℤ) × (max rest ≡ ok u) × Memᴰ u rest × All (λ x. x ≤ℤ u) rest)
          → (u : ℤ) × (max ts ≡ ok u) × Memᴰ u ts × All (λ x. x ≤ℤ u) ts
      by_socket b (some x) rest e1 e2 on1 same others =
          let (up, more) = larger-le x rest in
          rw (← same) (larger x rest, refl, larger-Mem x rest, (up, more))
      by_socket true none rest e1 e2 on1 same others = cc (socket_time c e1 e2)
      by_socket false none rest e1 e2 on1 same others = rw (← same) (others on1)

  -- A strip that has been updated and is on has been on since the latest of the times of its sockets, so
  -- far as these can be read: `max` is never called on nothing.
  pub on_since-latest :
      {ts : List ℤ}
      → is_none s.device.last_update ≡ false
      → is_on s ≡ ok true
      → times_on rounded now s s.children ≡ ok ts
      → (t : ℤ) × (on_since rounded now s ≡ ok (some t)) × Memᴰ t ts × All (λ x. x ≤ℤ t) ts
  unfolding on_since is_on requires_update
  on_since-latest {ts} known on times =
      let any : any_on s s.children ≡ ok true = ground arith in
      let (t, latest, among, bound) = times_on-max s.children any times in
      (t, ground arith, among, bound)
