-- ===== src/Exec/Triple.antt =====
-- Pre- and postconditions of methods that may raise: one condition for a return, one for a raise.
use python_kasa.Prelude.{◌≡◌}
use python_kasa.Exec.{Error, Result, ok, err}
use python_kasa.Exec.State.{Exec, Keeps, modify, ◌>>=◌, continue}

abbrev pub Post : {S A : Type 0} → (S → Type 0) → (S → Type 0) → Result A × S → Type 0
Post Q E (ok a, s) = Q s
Post Q E (err e, s) = E s

-- From `P`, `m` returns in `Q` or raises in `E`.
pub record Triple {S A : Type 0} (P : S → Type 0) (m : Exec S A) (Q E : S → Type 0) : Type 0 where
  pub at : (s : S) → P s → Post Q E (m s)

continue-Post :
    {S A B : Type 0} {R Q E : S → Type 0} (f : A → Exec S B) (o : Result A × S)
    → ((a : A) → Triple R (f a) Q E)
    → Post R E o
    → Post Q E (continue o.0 f o.1)
continue-Post f (ok a, s) next h = (next a).at s h
continue-Post f (err e, s) next h = h

module _ {S : Type 0} {P Q E : S → Type 0} where
  -- `m`, then `f` from the condition `R` between them.
  pub Triple-bind :
      {A B : Type 0} (R : S → Type 0) (m : Exec S A) (f : A → Exec S B)
      → Triple P m R E
      → ((a : A) → Triple R (f a) Q E)
      → Triple P (m >>= f) Q E
  unfolding ◌>>=◌
  Triple-bind R m f first next = record { at = λ s h. continue-Post f (m s) next (first.at s h) }

  pub Triple-modify : (g : S → S) → ((s : S) → P s → Q (g s)) → Triple P (modify g) Q E
  Triple-modify g h = record { at = h }

Post-of :
    {S A : Type 0} (P E : S → Type 0) (o : Result A × S)
    → P o.1
    → ((s : S) → P s → E s)
    → Post P E o
Post-of P E (ok a, s) h weaken = h
Post-of P E (err e, s) h weaken = weaken s h

-- A method that keeps `P` raises in whatever `P` gives.
pub Triple-Keeps :
    {S A : Type 0} {P E : S → Type 0} (m : Exec S A)
    → Keeps P m
    → ((s : S) → P s → E s)
    → Triple P m P E
Triple-Keeps {P} {E} m k weaken = record { at = λ s h. Post-of P E (m s) (k.at s h) weaken }

-- What holds of an outcome, given which one it is.
pub Post-ok :
    {S A : Type 0} (Q E : S → Type 0) (o : Result A × S) {a : A} → Post Q E o → o.0 ≡ ok a → Q o.1
Post-ok Q E (ok a, s) h e = h
Post-ok Q E (err x, s) h e = cc

pub Post-err :
    {S A : Type 0} (Q E : S → Type 0) (o : Result A × S) {x : Error}
    → Post Q E o
    → o.0 ≡ err x
    → E o.1
Post-err Q E (ok a, s) h e = cc
Post-err Q E (err x, s) h e = h

any-Post : {S A : Type 0} (o : Result A × S) → Post (λ s. Unit {0}) (λ s. Unit {0}) o
any-Post (ok a, s) = tt
any-Post (err e, s) = tt

-- Every method meets the conditions that always hold.
pub Triple-any :
    {S A : Type 0} (P : S → Type 0) (m : Exec S A) → Triple P m (λ s. Unit {0}) (λ s. Unit {0})
Triple-any P m = record { at = λ s h. any-Post (m s) }
