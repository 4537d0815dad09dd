-- ===== src/Core/Exec.antt =====
-- Code that reads and writes the database and may raise. What was written before an exception
-- stays written, unless the code ran under `transaction.atomic`.
use backend_live_canvas.Prelude.{Bool, true, false, ◌≡◌, refl, ◌⊎◌, inl, inr}
use backend_live_canvas.Core.Errors.{Exc}

pub data Result {ℓ} (A : Type ℓ) : Type ℓ where
  ok : A → Result A
  err : Exc → Result A

abbrev pub Exec : Type 0 → Type 0 → Type 0
Exec S A = S → Result A × S

module _ {S A : Type 0} where
  abbrev pub pure : A → Exec S A
  pure a s = (ok a, s)

  abbrev pub raise : Exc → Exec S A
  raise e s = (err e, s)

  abbrev pub gets : (S → A) → Exec S A
  gets f s = (ok (f s), s)

  -- A result that was computed elsewhere is returned or raised here.
  abbrev pub lift : Result A → Exec S A
  lift r s = (r, s)

  -- What an atomic block leaves: its writes, or the state before it where it raised.
  abbrev settle : S → Result A → S → Result A × S
  settle s (ok a) t = (ok a, t)
  settle s (err e) t = (err e, s)

  -- `transaction.atomic`
  abbrev pub atomic : Exec S A → Exec S A
  atomic m s = settle s (m s).0 (m s).1

abbrev pub modify : {S : Type 0} → (S → S) → Exec S (Unit {0})
modify f s = (ok tt, f s)

abbrev pub guard : {S : Type 0} → Bool → Exc → Exec S (Unit {0})
guard true e s = (ok tt, s)
guard false e s = (err e, s)

module _ {S A B : Type 0} where
  abbrev go_on : Result A → (A → Exec S B) → Exec S B
  go_on (ok a) f t = f a t
  go_on (err e) f t = (err e, t)

  infixl 5 ◌>>=◌ ◌>>◌
  abbrev pub ◌>>=◌ : Exec S A → (A → Exec S B) → Exec S B
  ◌>>=◌ m f s = go_on (m s).0 f (m s).1

  abbrev pub ◌>>◌ : Exec S A → Exec S B → Exec S B
  ◌>>◌ m k = m >>= λ _. k

pub Result-cases : {A : Type 0} (r : Result A) → ((a : A) × (r ≡ ok a)) ⊎ ((e : Exc) × (r ≡ err e))
Result-cases (ok a) = inl (a, refl)
Result-cases (err e) = inr (e, refl)

-- Equal outcomes of a success have equal values and equal states.
pub ok_pair :
    {S A : Type 0} (a : A) (s : S) {b : A} {t : S}
    → ◌≡◌ {A = Result A × S} (ok a, s) (ok b, t)
    → (a ≡ b) × (s ≡ t)
ok_pair a s h = (cc, cc)

-- A transaction that raises leaves the state as it was.
pub atomic_err :
    {S A : Type 0} (m : Exec S A) (s : S) {e : Exc} {t : S} → atomic m s ≡ (err e, t) → t ≡ s
atomic_err {S = S} {A = A} m s {e} {t} h = settled (m s).0 (m s).1 h
  where
    settled : (r : Result A) (u : S) → settle s r u ≡ (err e, t) → t ≡ s
    settled (ok a) u q = absurd (cc)
    settled (err x) u q = cc

-- A transaction that returns leaves what its body left.
pub atomic_ok :
    {S A : Type 0} (m : Exec S A) (s : S) {a : A} {t : S} → atomic m s ≡ (ok a, t) → m s ≡ (ok a, t)
atomic_ok {S = S} {A = A} m s {a} {t} h = settled (m s).0 (m s).1 h
  where
    settled :
        (r : Result A) (u : S) → settle s r u ≡ (ok a, t) → ◌≡◌ {A = Result A × S} (r, u) (ok a, t)
    settled (ok b) u q = q
    settled (err x) u q = absurd (cc)

-- A statement about a run: one of its value and state where it returns, and one of its exception
-- and state where it raises.
abbrev pub Outcome : {S A : Type 0} → (A → S → Type 0) → (Exc → S → Type 0) → Result A × S → Type 0
Outcome P Q (ok a, s) = P a s
Outcome P Q (err e, s) = Q e s

pub Outcome-of :
    {S A : Type 0} (P : A → S → Type 0) (Q : Exc → S → Type 0) (r : Result A × S)
    → ((a : A) (s : S) → r ≡ (ok a, s) → P a s)
    → ((e : Exc) (s : S) → r ≡ (err e, s) → Q e s)
    → Outcome P Q r
Outcome-of P Q (ok a, s) f g = f a s refl
Outcome-of P Q (err e, s) f g = g e s refl

-- A sequence that returns is two runs that return.
pub bind_ok :
    {S A B : Type 0} (m : Exec S A) (f : A → Exec S B) (s : S) {b : B} {t : S}
    → (m >>= f) s ≡ (ok b, t)
    → (a : A) × (u : S) × (m s ≡ (ok a, u)) × (f a u ≡ (ok b, t))
bind_ok {S = S} {A = A} m f s {b} {t} h = go (m s) h
  where
    go :
        (r : Result A × S)
        → go_on r.0 f r.1 ≡ (ok b, t)
        → (a : A) × (u : S) × (r ≡ (ok a, u)) × (f a u ≡ (ok b, t))
    go (ok a, u) q = (a, u, refl, q)
    go (err e, u) q = absurd (cc)

pub guard_ok :
    {S : Type 0} (b : Bool) (e : Exc) (s : S) {u : Unit {0}} {t : S}
    → guard b e s ≡ (ok u, t)
    → (b ≡ true) × (t ≡ s)
guard_ok true e s h = (refl, cc)
guard_ok false e s h = absurd (cc)

-- A result that is handed on, or raised.
abbrev pub then_result : {A B : Type 0} → Result A → (A → Result B) → Result B
then_result (ok a) f = f a
then_result (err e) f = err e

-- A statement about a result: one of its value, and one of its exception.
abbrev pub When : {A : Type 0} → (A → Type 0) → (Exc → Type 0) → Result A → Type 0
When P Q (ok a) = P a
When P Q (err e) = Q e

pub then_result-When :
    {A B : Type 0} (P : A → Type 0) (R : B → Type 0) (Q : Exc → Type 0) (r : Result A)
    (f : A → Result B)
    → When P Q r
    → ((a : A) → P a → When R Q (f a))
    → When R Q (then_result r f)
then_result-When P R Q (ok a) f h k = k a h
then_result-When P R Q (err e) f h k = h

-- A chain that returns is two results that return.
pub then_result_ok :
    {A B : Type 0} (m : Result A) (f : A → Result B) {b : B}
    → then_result m f ≡ ok b
    → (a : A) × (m ≡ ok a) × (f a ≡ ok b)
then_result_ok (ok a) f h = (a, refl, h)
then_result_ok (err e) f h = absurd (cc)
