-- ===== src/Prelude/Leads.antt =====
-- Actions from one predicate on the state to another, for what a block has learnt on the way.
use np_hw.Prelude.{
  ◌≡◌, refl, Bool, true, false, Option, none, some, Exec, Result, ok, throws, continue, gets, ◌>>=◌,
  case_option, Keeps, if◌then◌else◌,
}

-- From a state with `Q` the action ends in a state with `P`, whether it returns or throws.
pub record Leads {ℓ} {S A : Type ℓ} (Q P : S → Type ℓ) (m : Exec S A) : Type ℓ where
  pub leads : (s : S) → Q s → P (m s).1

module _ {ℓ} {S A : Type ℓ} {Q P : S → Type ℓ} where
  -- An action that keeps `Q`, where `Q` is more than `P`.
  pub Leads-Keeps : {m : Exec S A} → ((s : S) → Q s → P s) → Keeps Q m → Leads Q P m
  Leads-Keeps weaker k = record { leads = λ s h. weaker _ (k.keeps s h) }

  pub Leads-if :
      (b : Bool) (m n : Exec S A)
      → (b ≡ true → Leads Q P m)
      → (b ≡ false → Leads Q P n)
      → Leads Q P (if b then m else n)
  Leads-if true m n km kn = km refl
  Leads-if false m n km kn = kn refl

module _ {ℓ} {S A B : Type ℓ} {P : S → Type ℓ} where
  after_step :
      (r : Result A) (f : A → Exec S B) (s : S)
      → P s
      → ((a : A) → Keeps P (f a))
      → P (continue r f s).1
  after_step (ok a) f s h kf = (kf a).keeps s h
  after_step (throws e) f s h kf = h

module _ {ℓ} {S A B : Type ℓ} {Q P : S → Type ℓ} where
  -- The first action makes the step to `P`, the rest keeps it.
  pub Leads-bind :
      (m : Exec S A) (f : A → Exec S B)
      → Leads Q P m
      → ((a : A) → Keeps P (f a))
      → Leads Q P (m >>= f)
  unfolding ◌>>=◌
  Leads-bind m f km kf = record { leads = λ s h. after_step (m s).0 f (m s).1 (km.leads s h) kf }

  before_step :
      (r : Result A) (f : A → Exec S B) (s : S)
      → Q s
      → ((s : S) → Q s → P s)
      → ((a : A) → Leads Q P (f a))
      → P (continue r f s).1
  before_step (ok a) f s h weaker kf = (kf a).leads s h
  before_step (throws e) f s h weaker kf = weaker s h

  -- The first action keeps `Q`, the rest makes the step.
  pub Leads-seq :
      (m : Exec S A) (f : A → Exec S B)
      → ((s : S) → Q s → P s)
      → Keeps Q m
      → ((a : A) → Leads Q P (f a))
      → Leads Q P (m >>= f)
  unfolding ◌>>=◌
  Leads-seq m f weaker km kf = record {
    leads = λ s h. before_step (m s).0 f (m s).1 (km.keeps s h) weaker kf;
  }

module _ {ℓ κ} {A : Type ℓ} {S B : Type κ} {Q P : S → Type κ} where
  pub Leads-case_option :
      (o : Option A) (m : Exec S B) (f : A → Exec S B)
      → (o ≡ none → Leads Q P m)
      → ((a : A) → o ≡ some a → Leads Q P (f a))
      → Leads Q P (case_option o m f)
  unfolding case_option
  Leads-case_option none m f km kf = km refl
  Leads-case_option (some a) m f km kf = kf a refl

module _ {S A B : Type 0} {Q P : S → Type 0} where
  -- What follows a read may use what was read.
  pub Leads-gets :
      (g : S → A) (f : A → Exec S B)
      → ((a : A) → Leads (λ s. Q s × (g s ≡ a)) P (f a))
      → Leads Q P (gets g >>= f)
  unfolding ◌>>=◌
  Leads-gets g f kf = record { leads = λ s h. (kf (g s)).leads s (h, refl) }

module _ {ℓ} {S A : Type ℓ} {P : S → Type ℓ} where
  pub Keeps-Leads : (m : Exec S A) → Leads P P m → Keeps P m
  Keeps-Leads m l = record { keeps = l.leads }
