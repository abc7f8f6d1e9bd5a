-- ===== src/HashGrid/Query/Steps.antt =====
-- The way around the grid, from a row or a column to another.
use rrrr.Prelude.{
  ℕ, ◌+◌, ◌-◌, ◌%◌, ◌<◌, ◌≡◌, ◌≢◌, ◌∙◌, ap, leb, ◌==◌, if◌then◌else◌, arith, Bool-cases, inl, inr,
  ==_iff,
}
use native.Mathlib.Nat.{mod_self, mod-eq_of_lt}

-- The steps from a row or column to another, around the grid.
abbrev pub left : ℕ → ℕ → ℕ → ℕ
left dim a b = if leb a b then b - a else b + dim - a

pub left_next :
    (dim a b : ℕ)
    → a < dim
    → b < dim
    → a ≢ b
    → (left dim ((a + 1) % dim) b + 1 ≡ left dim a b) × ((a + 1) % dim < dim)
left_next dim a b la lb ne = elim (Bool-cases (a + 1 == dim)) [
  | inl p ↦
      let e = (==_iff (a + 1) dim).0 p in
      let wrap : (a + 1) % dim ≡ 0 = ap (λ k. k % dim) e ∙ mod_self dim in
      rw wrap (ground arith, omega arith)
  | inr p ↦
      let stay : (a + 1) % dim ≡ a + 1 = mod-eq_of_lt (ground arith) in
      rw stay (ground arith, ground arith)
]
