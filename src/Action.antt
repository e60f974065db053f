-- ===== src/Action.antt =====
-- Methods that change an object, return a `Status`, and may run into undefined behaviour: what was
-- written before an error stays written, so the object comes back beside the error too.
use bitdb.Base.{arith, ◌≡◌, refl, Option, none, some, Bool, true, false}
use bitdb.Status.{StatusCode, Outcome, ok, err, Fallible}

abbrev pub Action {ℓ} : Type ℓ → Type ℓ → Type ℓ
Action S A = S → Option (Outcome A × S)

module _ {ℓ} {S A : Type ℓ} where
  abbrev pub pure : A → Action S A
  pure a s = some (ok a, s)

  abbrev pub raise : StatusCode → Action S A
  raise c s = some (err c, s)

  abbrev pub undefined : Action S A
  undefined s = none

  abbrev with_state : S → Fallible A → Option (Outcome A × S)
  with_state s none = none
  with_state s (some r) = some (r, s)

  -- A call that does not touch the object.
  abbrev pub lift : Fallible A → Action S A
  lift m s = with_state s m

  abbrev pub gets : (S → A) → Action S A
  gets f s = some (ok (f s), s)

module _ {ℓ} {S : Type ℓ} where
  abbrev pub modify : (S → S) → Action S (Unit {ℓ})
  modify f s = some (ok tt, f s)

  -- CHECK_TRUE
  abbrev pub check : Bool → StatusCode → Action S (Unit {ℓ})
  check true c s = some (ok tt, s)
  check false c s = some (err c, s)

module _ {ℓ} {S A B : Type ℓ} where
  abbrev then_run : Option (Outcome A × S) → (A → Action S B) → Option (Outcome B × S)
  then_run none f = none
  then_run (some (ok a, s)) f = f a s
  then_run (some (err c, s)) f = some (err c, s)

  infixl 5 ◌>>=◌ ◌>>◌
  abbrev pub ◌>>=◌ : Action S A → (A → Action S B) → Action S B
  ◌>>=◌ m f s = then_run (m s) f

  abbrev pub ◌>>◌ : Action S A → Action S B → Action S B
  m >> n = m >>= λ _. n

module _ {ℓ} {S A B : Type ℓ} where
  then_run_congr :
      (o : Option (Outcome A × S)) (f g : A → Action S B)
      → ((a : A) (s : S) → f a s ≡ g a s)
      → then_run o f ≡ then_run o g
  then_run_congr none f g h = refl
  then_run_congr (some (ok a, s)) f g h = h a s
  then_run_congr (some (err c, s)) f g h = refl

  -- Steps that end alike end alike behind the same first step.
  pub bind_congr :
      (m : Action S A) (f g : A → Action S B) (s : S)
      → ((a : A) (s : S) → f a s ≡ g a s)
      → (m >>= f) s ≡ (m >>= g) s
  bind_congr m f g s h = then_run_congr (m s) f g h

module _ {ℓ} {S A B C : Type ℓ} where
  then_run_assoc :
      (o : Option (Outcome A × S)) (f : A → Action S B) (g : B → Action S C)
      → then_run (then_run o f) g ≡ then_run o (λ a. f a >>= g)
  then_run_assoc none f g = refl
  then_run_assoc (some (ok a, s)) f g = refl
  then_run_assoc (some (err c, s)) f g = refl

  pub bind_assoc :
      (m : Action S A) (f : A → Action S B) (g : B → Action S C) (s : S)
      → (m >>= f >>= g) s ≡ (m >>= λ a. f a >>= g) s
  bind_assoc m f g s = then_run_assoc (m s) f g

module _ {ℓ} {S A B : Type ℓ} where
  then_run-eq-ok :
      (o : Option (Outcome A × S)) (f : A → Action S B) (b : B) (t : S)
      → then_run o f ≡ some (ok b, t)
      → (a : A) × (s1 : S) × (o ≡ some (ok a, s1)) × (f a s1 ≡ some (ok b, t))
  then_run-eq-ok none f b t h = cc
  then_run-eq-ok (some (ok a, s1)) f b t h = (a, s1, refl, h)
  then_run-eq-ok (some (err c, s1)) f b t h = absurd (ground arith)

  -- Both parts of a chain that succeeds have succeeded.
  pub bind-eq-ok :
      (m : Action S A) (f : A → Action S B) (s : S) (b : B) (t : S)
      → (m >>= f) s ≡ some (ok b, t)
      → (a : A) × (s1 : S) × (m s ≡ some (ok a, s1)) × (f a s1 ≡ some (ok b, t))
  bind-eq-ok m f s b t h = then_run-eq-ok (m s) f b t h
