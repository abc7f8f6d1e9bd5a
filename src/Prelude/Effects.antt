-- ===== src/Prelude/Effects.antt =====
-- Code that may exit or crash: `none`. A chain of steps is a `do` block, and `Ensures` is the
-- rule for total correctness: the code returns, and what it returns has the property.
use rrrr.Prelude.Tests.{if◌then◌else◌}
use rrrr.Prelude.Lists.{All}
use mathlib.Core.Path.{◌≡◌, refl}
use mathlib.Core.Bool.{Bool, true, false}
use mathlib.Core.Option.{Option, none, some}
use mathlib.Core.List.{List, [], ◌∷◌}

infixl 5 ◌>>=◌ ◌>>◌
abbrev pub ◌>>=◌ {ℓ κ} : {A : Type ℓ} {B : Type κ} → Option A → (A → Option B) → Option B
none >>= f = none
some a >>= f = f a

abbrev pub ◌>>◌ {ℓ κ} : {A : Type ℓ} {B : Type κ} → Option A → Option B → Option B
m >> k = m >>= λ _. k

-- `for` over a list, with the loop's state passed from round to round.
unfoldable pub for_each {ℓ κ} :
    {A : Type ℓ} {S : Type κ} → List A → (A → S → Option S) → S → Option S
for_each [] body s = some s
for_each (a ∷ as') body s = body a s >>= for_each as' body

abbrev pub Ensures : {A : Type 0} → (A → Type 0) → Option A → Type 0
Ensures P none = ⊥
Ensures P (some a) = P a

module _ {A B : Type 0} (P : A → Type 0) (Q : B → Type 0) where
  pub Ensures-bind :
      (m : Option A) (f : A → Option B)
      → Ensures P m
      → ((a : A) → P a → Ensures Q (f a))
      → Ensures Q (m >>= f)
  Ensures-bind none f h k = absurd h
  Ensures-bind (some a) f h k = k a h

module _ {A : Type 0} (P Q : A → Type 0) where
  pub Ensures-weaken : (m : Option A) → ((a : A) → P a → Q a) → Ensures P m → Ensures Q m
  Ensures-weaken none f h = absurd h
  Ensures-weaken (some a) f h = f a h

module _ {A : Type 0} (P : A → Type 0) where
  pub Ensures-if :
      (b : Bool) (m n : Option A)
      → (b ≡ true → Ensures P m)
      → (b ≡ false → Ensures P n)
      → Ensures P (if b then m else n)
  Ensures-if true m n f g = f refl
  Ensures-if false m n f g = g refl

  pub Ensures-some : (m : Option A) → Ensures P m → (a : A) × (m ≡ some a) × P a
  Ensures-some none h = absurd h
  Ensures-some (some a) h = (a, refl, h)

module _ {A S : Type 0} (Inv : S → Type 0) (body : A → S → Option S) where
  pub Ensures-for_each :
      ((a : A) (s : S) → Inv s → Ensures Inv (body a s))
      → (as' : List A) (s : S) → Inv s
      → Ensures Inv (for_each as' body s)
  unfolding for_each
  Ensures-for_each keep [] s h = h
  Ensures-for_each keep (a ∷ as') s h =
      Ensures-bind Inv Inv (body a s) (for_each as' body) (keep a s h)
        (λ s' h'. Ensures-for_each keep as' s' h')

module _ {A S : Type 0} (P : A → Type 0) (Inv : S → Type 0) (body : A → S → Option S)
    (keep : (a : A) (s : S) → P a → Inv s → Ensures Inv (body a s)) where
  pub Ensures-for_each-All :
      (as' : List A) (s : S) → All P as' → Inv s → Ensures Inv (for_each as' body s)
  unfolding for_each
  Ensures-for_each-All [] s p h = h
  Ensures-for_each-All (a ∷ as') s p h =
      Ensures-bind Inv Inv (body a s) (for_each as' body) (keep a s p.0 h)
        (λ s' h'. Ensures-for_each-All as' s' p.1 h')

-- The rule for partial correctness: what the code returns, if it returns, has the property.
abbrev pub Holds : {A : Type 0} → (A → Type 0) → Option A → Type 0
Holds P none = Unit
Holds P (some a) = P a

module _ {A B : Type 0} (P : A → Type 0) (Q : B → Type 0) where
  pub Holds-bind :
      (m : Option A) (f : A → Option B)
      → Holds P m
      → ((a : A) → P a → Holds Q (f a))
      → Holds Q (m >>= f)
  Holds-bind none f h k = tt
  Holds-bind (some a) f h k = k a h

module _ {A : Type 0} (P : A → Type 0) where
  pub Holds-if :
      (b : Bool) (m n : Option A)
      → (b ≡ true → Holds P m)
      → (b ≡ false → Holds P n)
      → Holds P (if b then m else n)
  Holds-if true m n f g = f refl
  Holds-if false m n f g = g refl

  pub Holds-all : (m : Option A) → ((a : A) → P a) → Holds P m
  Holds-all none f = tt
  Holds-all (some a) f = f a

module _ {A S : Type 0} (P : A → Type 0) (Inv : S → Type 0) (body : A → S → Option S)
    (keep : (a : A) (s : S) → P a → Inv s → Holds Inv (body a s)) where
  pub Holds-for_each : (as' : List A) (s : S) → All P as' → Inv s → Holds Inv (for_each as' body s)
  unfolding for_each
  Holds-for_each [] s p h = h
  Holds-for_each (a ∷ as') s p h =
      Holds-bind Inv Inv (body a s) (for_each as' body) (keep a s p.0 h)
        (λ s' h'. Holds-for_each as' s' p.1 h')
