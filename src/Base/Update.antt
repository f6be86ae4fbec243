-- ===== src/Base/Update.antt =====
-- Processes by their numbers, of which one changes.
use Prim.Native.Nat.{ℕ}
use mathlib.Core.Path.{◌≡◌}
use mathlib.Core.Logic.{◌≢◌, ◌⊎◌, inl, inr}
use mathlib.Core.Bool.{Bool, true}
use native.Mathlib.Omega.{arith}
use lkm_practice.Base.Tests.{◌==◌, ==_iff, if◌then◌else◌, Bool-cases}

abbrev pub update {ℓ} : {A : Type ℓ} → (ℕ → A) → ℕ → A → ℕ → A
update f i p j = if i == j then p else f j

module _ {A : Type 0} (f : ℕ → A) (i : ℕ) (p : A) where
  pub update_self : update f i p i ≡ p
  update_self = ground arith

  pub update_other : (j : ℕ) → i ≢ j → update f i p j ≡ f j
  update_other j apart = ground (arith, ==_iff i j)

  -- A property that all have.
  pub update_all : (P : A → Type 0) → ((j : ℕ) → P (f j)) → P p → (j : ℕ) → P (update f i p j)
  update_all P all new j = elim (Bool-cases (i == j)) [
    | inl here ↦ rw here new
    | inr there ↦ rw there (all j)
  ]

  -- A test that holds afterwards holds of the changed one, or held of another before.
  pub update_test :
      (test : A → Bool) (j : ℕ)
      → test (update f i p j) ≡ true
      → ((i ≡ j) × (test p ≡ true)) ⊎ ((i ≢ j) × (test (f j) ≡ true))
  update_test test j h = elim (Bool-cases (i == j)) [
    | inl here ↦ inl ((==_iff i j).0 here, rw here at h)
    | inr there ↦ inr (ground (arith, ==_iff i j), rw there at h)
  ]
