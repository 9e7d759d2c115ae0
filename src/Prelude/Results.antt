-- ===== src/Prelude/Results.antt =====
-- Methods that change an object and may throw. What was written before a throw stays written, so
-- the object comes back beside the exception too.
use mathlib.Core.Path.{◌≡◌, refl}
use mathlib.Core.Bool.{Bool, true, false}
use np_hw.Prelude.Tests.{if◌then◌else◌}
use mathlib.Core.Option.{Option, none, some}

pub data Exception : Type 0 where
  out_of_range invalid_argument runtime_error : Exception

pub data Result {ℓ} (A : Type ℓ) : Type ℓ where
  ok : A → Result A
  throws : Exception → Result A

abbrev pub Exec {ℓ} : Type ℓ → Type ℓ → Type ℓ
Exec S A = S → Result A × S

module _ {ℓ} {S A : Type ℓ} where
  unfoldable pub pure : A → Exec S A
  pure a s = (ok a, s)

  unfoldable pub throw : Exception → Exec S A
  throw e s = (throws e, s)

  unfoldable pub lift : Result A → Exec S A
  lift r s = (r, s)

  unfoldable pub gets : (S → A) → Exec S A
  gets f s = (ok (f s), s)

  -- `container.at(k)`
  unfoldable pub at : Option A → Exec S A
  at none s = (throws out_of_range, s)
  at (some a) s = (ok a, s)

module _ {ℓ} {S A B : Type ℓ} where
  abbrev pub continue : Result A → (A → Exec S B) → Exec S B
  continue (ok a) f s = f a s
  continue (throws e) f s = (throws e, s)

  infixl 10 ◌>>=◌ ◌>>◌
  -- Opening this opens what blocks are made of.
  unfoldable pub ◌>>=◌ : Exec S A → (A → Exec S B) → Exec S B
  unfolding pure throw lift gets at
  ◌>>=◌ first next s = let (r, t) = first s in continue r next t

  abbrev pub ◌>>◌ : Exec S A → Exec S B → Exec S B
  first >> next = first >>= λ _. next

module _ {ℓ κ} {A : Type ℓ} {B : Type κ} where
  unfoldable pub case_option : Option A → B → (A → B) → B
  case_option none b f = b
  case_option (some a) b f = f a

-- `m` keeps `P`, whether it returns or throws.
pub record Keeps {ℓ} {S A : Type ℓ} (P : S → Type ℓ) (m : Exec S A) : Type ℓ where
  pub keeps : (s : S) → P s → P (m s).1

module _ {ℓ} {S A : Type ℓ} {P : S → Type ℓ} where
  pub Keeps-at : (o : Option A) → Keeps P (at o)
  unfolding at
  Keeps-at none = record { keeps = λ s h. h }
  Keeps-at (some a) = record { keeps = λ s h. h }

  pub Keeps-throw : (e : Exception) → Keeps P (throw {A = A} e)
  unfolding throw
  Keeps-throw e = record { keeps = λ s h. h }

  pub Keeps-pure : (a : A) → Keeps P (pure a)
  unfolding pure
  Keeps-pure a = record { keeps = λ s h. h }

  pub Keeps-gets : (f : S → A) → Keeps P (gets f)
  unfolding gets
  Keeps-gets f = record { keeps = λ s h. h }

  pub Keeps-lift : (r : Result A) → Keeps P (lift r)
  unfolding lift
  Keeps-lift r = record { keeps = λ s h. h }

  pub Keeps-if : (b : Bool) (m n : Exec S A) → Keeps P m → Keeps P n → Keeps P (if b then m else n)
  Keeps-if true m n km kn = km
  Keeps-if false m n km kn = kn

module _ {ℓ} {S A B : Type ℓ} {P : S → Type ℓ} where
  Keeps-continue :
      (r : Result A) (f : A → Exec S B) (s : S)
      → P s
      → ((a : A) → Keeps P (f a))
      → P (continue r f s).1
  Keeps-continue (ok a) f s h kf = (kf a).keeps s h
  Keeps-continue (throws e) f s h kf = h

  pub Keeps-bind :
      (first : Exec S A) (next : A → Exec S B)
      → Keeps P first
      → ((a : A) → Keeps P (next a))
      → Keeps P (first >>= next)
  unfolding ◌>>=◌
  Keeps-bind first next k l = record {
    keeps = λ s h. let (r, t) = first s in Keeps-continue r next t (k.keeps s h) l;
  }

  pub Keeps-at_bind :
      (o : Option A) (f : A → Exec S B)
      → ((a : A) → o ≡ some a → Keeps P (f a))
      → Keeps P (at o >>= f)
  unfolding ◌>>=◌
  Keeps-at_bind none f kf = record { keeps = λ s h. h }
  Keeps-at_bind (some a) f kf = kf a refl

  pub Keeps-case_option :
      (o : Option A) (m : Exec S B) (f : A → Exec S B)
      → Keeps P m
      → ((a : A) → Keeps P (f a))
      → Keeps P (case_option o m f)
  unfolding case_option
  Keeps-case_option none m f km kf = km
  Keeps-case_option (some a) m f km kf = kf a

pub ruleset keeps_rules = (
  Keeps-pure, Keeps-throw, Keeps-lift, Keeps-gets, Keeps-at, Keeps-if, Keeps-bind,
  Keeps-case_option,
)
