-- ===== src/Prelude/Collect.antt =====
-- The outputs of a loop, one after the other, and when there are none.
use rrrr.Prelude.Lists.{range_from}
use rrrr.Prelude.Tests.{Bool-cases, ◌==◌, ==_iff, if◌then◌else◌}
use Prim.Native.Nat.{ℕ, zero, suc, ◌+◌, ◌≤◌, ◌<◌}
use mathlib.Core.Path.{◌≡◌, refl, subst}
use mathlib.Core.Logic.{◌↔◌, inl, inr}
use mathlib.Core.Bool.{Bool, true, false}
use mathlib.Core.List.{List, [], ◌∷◌, ◌++◌}
use native.Mathlib.Omega.{arith}

module _ {A : Type 0} where
  abbrev pub collect : (ℕ → List A) → List ℕ → List A
  collect f [] = []
  collect f (i ∷ is) = f i ++ collect f is

  abbrev pub when : Bool → A → List A
  when b a = if b then a ∷ [] else []

  pub when-nil : (b : Bool) (a : A) → (when b a ≡ []) ↔ (b ≡ false)
  when-nil true a = (λ e. cc, λ e. cc)
  when-nil false a = (λ e. refl, λ e. refl)

  pub append-nil : (xs ys : List A) → (xs ++ ys ≡ []) ↔ ((xs ≡ []) × (ys ≡ []))
  append-nil [] ys = (λ e. (refl, e), λ (p, q). q)
  append-nil (x ∷ xs) ys = (λ e. cc, λ (p, q). cc)

module _ {A : Type 0} (f : ℕ → List A) where
  empty_of_collect :
      (lo n : ℕ) → collect f (range_from lo n) ≡ [] → (i : ℕ) → lo ≤ i → i < lo + n → f i ≡ []
  empty_of_collect lo zero e i p q = absurd (omega arith)
  empty_of_collect lo (suc n) e i p q =
      let (first, rest) = (append-nil (f lo) (collect f (range_from (lo + 1) n))).0 e in
      elim (Bool-cases (lo == i)) [
        | inl r ↦ subst (λ k. f k ≡ []) ((==_iff lo i).0 r) first
        | inr r ↦ empty_of_collect (lo + 1) n rest i (ground arith) (ground arith)
      ]

  collect_of_empty :
      (lo n : ℕ) → ((i : ℕ) → lo ≤ i → i < lo + n → f i ≡ []) → collect f (range_from lo n) ≡ []
  collect_of_empty lo zero h = refl
  collect_of_empty lo (suc n) h = (append-nil (f lo) (collect f (range_from (lo + 1) n))).1 (
    h lo (omega arith) (omega arith),
    collect_of_empty (lo + 1) n (λ i p q. h i (omega arith) (omega arith)),
  )

  pub collect-nil :
      (lo n : ℕ) → (collect f (range_from lo n) ≡ []) ↔ ((i : ℕ) → lo ≤ i → i < lo + n → f i ≡ [])
  collect-nil lo n = (empty_of_collect lo n, collect_of_empty lo n)
