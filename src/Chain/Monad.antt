-- ===== src/Chain/Monad.antt =====
-- A fallible call, and a method of an object of type `S` that may fail: it returns its result and
-- the object that it leaves behind, also on an error, since Go keeps what was written before the
-- return.
use synthos_collective.Prelude.{Bool, Option, none, some, if◌then◌else◌, ◌≡◌, refl, ◌⊎◌, inl, inr}
use synthos_collective.Chain.Errors.{Error}

pub data Result {ℓ} (A : Type ℓ) : Type ℓ where
  ok : A → Result A
  err : Error → Result A

module _ {A : Type 0} where
  pub Result-cases : (r : Result A) → ((e : Error) × (r ≡ err e)) ⊎ ((a : A) × (r ≡ ok a))
  Result-cases (err e) = inl (e, refl)
  Result-cases (ok a) = inr (a, refl)

abbrev pub Action : Type 0 → Type 0 → Type 0
Action S A = S → Result A × S

infixl 5 ◌>>=◌ ◌>>◌
abbrev pub ◌>>=◌ : {S A B : Type 0} → Action S A → (A → Action S B) → Action S B
◌>>=◌ step rest s = let (r, s') = step s in elim r [ err e ↦ (err e, s') | ok a ↦ rest a s' ]

abbrev pub ◌>>◌ : {S A B : Type 0} → Action S A → Action S B → Action S B
first >> second = first >>= λ _. second

module _ {S : Type 0} where
  -- An early return: `if c { return e }`.
  abbrev pub raise_if : Bool → Error → Action S (Unit {0})
  raise_if c e s = (if c then err e else ok tt, s)

  abbrev pub modify : (S → S) → Action S (Unit {0})
  modify write s = (ok tt, write s)

module _ {S A : Type 0} where
  abbrev pub gets : (S → A) → Action S A
  gets read s = (ok (read s), s)

  abbrev pub raise : Error → Action S A
  raise e s = (err e, s)

  abbrev pub pure : A → Action S A
  pure a s = (ok a, s)

  -- A map read with `if !ok { return e }`.
  abbrev pub or_raise : Option A → Error → Action S A
  or_raise (some a) e s = (ok a, s)
  or_raise none e s = (err e, s)

  -- A pure call that may fail.
  abbrev pub lift : Result A → Action S A
  lift r s = (r, s)
