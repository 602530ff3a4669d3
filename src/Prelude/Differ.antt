-- ===== src/Prelude/Differ.antt =====
-- Lists whose rows have different keys.
use Prim.Native.Nat.{ℕ, zero, suc}
use mathlib.Core.Bool.{Bool}
use mathlib.Core.Path.{◌≡◌, sym}
use mathlib.Core.Logic.{◌≢◌, inl, inr}
use mathlib.Core.Option.{none}
use mathlib.Core.List.{List, [], ◌∷◌}
use native.Mathlib.Omega.{arith}
use codex_bridge.Prelude.Lists.{All, take}
use codex_bridge.Prelude.Tests.{Eq, Bool-cases, ◌==◌}
use codex_bridge.Prelude.Table.{find, Unique}
use codex_bridge.Prelude.Order.{
  select, sort_by, insert_by, insert_by-All, select-All, sort_by-All, take-All,
}

module _ {ℓ κ} {R : Type ℓ} {K : Type κ} ⦃e : Eq K⦄ (key : R → K) where
  abbrev pub AllDiffer : List R → Type (ℓ ⊔ κ)
  AllDiffer [] = Unit
  AllDiffer (r ∷ rs) = All (λ x. key x ≢ key r) rs × AllDiffer rs

  find-none-All : (k : K) (rs : List R) → find key k rs ≡ none → All (λ x. key x ≢ k) rs
  unfolding find
  find-none-All k [] h = tt
  find-none-All k (r ∷ rs) h = elim (Bool-cases (key r == k)) [
    | inl same ↦ ground (arith, h, same)
    | inr other ↦ ((λ p. ground (arith, other, p)), find-none-All k rs (ground (arith, h, other)))
  ]

  pub Unique-AllDiffer : (rs : List R) → Unique key rs → AllDiffer rs
  Unique-AllDiffer [] u = tt
  Unique-AllDiffer (r ∷ rs) u = (find-none-All (key r) rs u.0, Unique-AllDiffer rs u.1)

  select-AllDiffer : (p : R → Bool) (rs : List R) → AllDiffer rs → AllDiffer (select p rs)
  unfolding select
  select-AllDiffer p [] a = tt
  select-AllDiffer p (r ∷ rs) a = elim (Bool-cases (p r)) [
    | inl meets ↦ rw meets (select-All (λ x. key x ≢ key r) p rs a.0, select-AllDiffer p rs a.1)
    | inr misses ↦ rw misses (select-AllDiffer p rs a.1)
  ]

  insert_by-AllDiffer :
      (b : R → R → Bool) (r : R) (rs : List R)
      → All (λ x. key x ≢ key r) rs
      → AllDiffer rs
      → AllDiffer (insert_by b r rs)
  unfolding insert_by
  insert_by-AllDiffer b r [] new a = (tt, tt)
  insert_by-AllDiffer b r (x ∷ xs) new a = elim (Bool-cases (b r x)) [
    | inl first ↦ rw first (new, a)
    | inr later ↦ rw later (
      insert_by-All (λ y. key y ≢ key x) b r xs (λ p. new.0 (sym p)) a.0,
      insert_by-AllDiffer b r xs new.1 a.1,
    )
  ]

  sort_by-AllDiffer : (b : R → R → Bool) (rs : List R) → AllDiffer rs → AllDiffer (sort_by b rs)
  unfolding sort_by
  sort_by-AllDiffer b [] a = tt
  sort_by-AllDiffer b (r ∷ rs) a =
      insert_by-AllDiffer b r (sort_by b rs) (sort_by-All (λ x. key x ≢ key r) b rs a.0)
        (sort_by-AllDiffer b rs a.1)

  take-AllDiffer : (n : ℕ) (rs : List R) → AllDiffer rs → AllDiffer (take n rs)
  take-AllDiffer zero rs a = tt
  take-AllDiffer (suc n) [] a = tt
  take-AllDiffer (suc n) (r ∷ rs) a =
      (take-All (λ x. key x ≢ key r) n rs a.0, take-AllDiffer n rs a.1)

  -- The rows of a query differ, and so do the keys of each two of them.
  pub AllDiffer-query :
      (n : ℕ) (b : R → R → Bool) (p : R → Bool) (rs : List R)
      → Unique key rs
      → AllDiffer (take n (sort_by b (select p rs)))
  AllDiffer-query n b p rs u =
      take-AllDiffer n (sort_by b (select p rs))
        (sort_by-AllDiffer b (select p rs) (select-AllDiffer p rs (Unique-AllDiffer rs u)))
