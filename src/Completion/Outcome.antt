-- ===== src/Completion/Outcome.antt =====
-- A result or the error that ends the inspection of a response. Every error is kept in the
-- inspector, which then reads nothing more, so the state behind an error is not modelled.
use mathlib.Core.Path.{transport}
use lite2api.Common.{ap, ◌≡◌, ◌⊎◌, inl, inr, refl, Bool, true, false, List, [], ◌∷◌, String}

infixl 5 ◌>>=◌ ◌>>◌
unfoldable pub ◌>>=◌ {ℓ κ} : {A : Type ℓ} {B : Type κ} → A ⊎ String → (A → B ⊎ String) → B ⊎ String
inl a >>= f = f a
inr e >>= f = inr e

abbrev pub ◌>>◌ {ℓ κ} : {A : Type ℓ} {B : Type κ} → A ⊎ String → B ⊎ String → B ⊎ String
m >> r = m >>= λ _. r

-- A result that is no error has the property.
unfoldable pub Passes {ℓ κ} : {A : Type ℓ} → (A → Type κ) → A ⊎ String → Type κ
Passes P (inl a) = P a
Passes P (inr e) = Unit

-- if test { return error }
unfoldable pub refuse_if : Bool → String → ◌⊎◌ {0, 0} Unit String
refuse_if true e = inr e
refuse_if false e = inl tt

-- for _, x := range xs { if err := body(x); err != nil { return err } }
unfoldable pub each {ℓ κ} :
    {X : Type ℓ} {S : Type κ} → (X → S → S ⊎ String) → List X → S → S ⊎ String
each body [] s = inl s
each body (x ∷ xs) s = body x s >>= each body xs

module _ {ℓ κ} {A : Type ℓ} (P : A → Type κ) where
  pub Passes-inl : (a : A) → P a → Passes P (inl a)
  unfolding Passes
  Passes-inl a p = p

  pub Passes-inr : (e : String) → Passes P (inr e)
  unfolding Passes
  Passes-inr e = tt

  -- Behind a test that does not refuse, the test is known to fail.
  pub refuse_if-Passes :
      (test : Bool) (e : String) (rest : A ⊎ String)
      → (test ≡ false → Passes P rest)
      → Passes P (refuse_if test e >> rest)
  unfolding Passes refuse_if ◌>>=◌
  refuse_if-Passes true e rest h = tt
  refuse_if-Passes false e rest h = h refl

pub Passes-bind {ℓ κ μ ν} :
    {A : Type ℓ} {B : Type κ} (Q : A → Type μ) (P : B → Type ν) (m : A ⊎ String)
    (f : A → B ⊎ String)
    → Passes Q m
    → ((a : A) → Q a → Passes P (f a))
    → Passes P (m >>= f)
unfolding Passes ◌>>=◌
Passes-bind Q P (inl a) f q h = h a q
Passes-bind Q P (inr e) f q h = tt

-- Nothing is asked of the first result.
pub Passes-step {ℓ κ ν} :
    {A : Type ℓ} {B : Type κ} (P : B → Type ν) (m : A ⊎ String) (f : A → B ⊎ String)
    → ((a : A) → Passes P (f a))
    → Passes P (m >>= f)
unfolding Passes ◌>>=◌
Passes-step P (inl a) f h = h a
Passes-step P (inr e) f h = tt

pub Passes-map {ℓ κ μ} :
    {A : Type ℓ} (Q : A → Type κ) (P : A → Type μ) (m : A ⊎ String)
    → Passes Q m
    → ((a : A) → Q a → P a)
    → Passes P m
unfolding Passes
Passes-map Q P (inl a) q h = h a q
Passes-map Q P (inr e) q h = tt

pub Passes-result {ℓ κ} :
    {A : Type ℓ} (P : A → Type κ) (m : A ⊎ String) (a : A) → Passes P m → m ≡ inl a → P a
unfolding Passes
Passes-result P m a h e = transport (ap (Passes P) e) h

-- A loop keeps what every round keeps.
pub each-Passes {ℓ κ μ} :
    {X : Type ℓ} {S : Type κ} (P : S → Type μ) (body : X → S → S ⊎ String)
    → ((x : X) (s : S) → P s → Passes P (body x s))
    → (xs : List X) (s : S) → P s
    → Passes P (each body xs s)
unfolding each
each-Passes P body keep [] s p = Passes-inl P s p
each-Passes P body keep (x ∷ xs) s p =
    Passes-bind P P _ _ (keep x s p) (λ t q. each-Passes P body keep xs t q)
