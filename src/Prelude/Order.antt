-- ===== src/Prelude/Order.antt =====
-- The order of texts, by their characters, and the clauses `WHERE`, `ORDER BY` and `LIMIT`.
use Prim.Native.Nat.{ℕ, zero, suc, ◌≤◌}
use Prim.Native.String.{String}
use mathlib.Core.Bool.{Bool, true, false, ◌&&◌, ◌||◌}
use mathlib.Core.Path.{◌≡◌, refl}
use mathlib.Core.Logic.{inl, inr}
use mathlib.Core.Option.{some}
use native.Mathlib.Omega.{arith}
use codex_bridge.Prelude.Lists.{All, take, length}
use codex_bridge.Prelude.Table.{find, Unique, count_where}
use mathlib.Core.List.{List, [], ◌∷◌}
use codex_bridge.Prelude.Tests.{Eq, Bool-cases, ◌==◌, nat_eq, ltb, if◌then◌else◌}
use codex_bridge.Prelude.Chars.{codes}

codes_leb : List ℕ → List ℕ → Bool
unfolding nat_eq
codes_leb [] ds = true
codes_leb (c ∷ cs) [] = false
codes_leb (c ∷ cs) (d ∷ ds) = ltb c d || (c == d && codes_leb cs ds)

unfoldable pub text_leb : String → String → Bool
unfolding codes codes_leb
text_leb s t = codes_leb (codes s) (codes t)

module _ {ℓ} {R : Type ℓ} where
  -- `WHERE p`
  unfoldable pub select : (R → Bool) → List R → List R
  select p [] = []
  select p (r ∷ rs) = if p r then r ∷ select p rs else select p rs

  -- `ORDER BY` an order, ties as they stand.
  unfoldable pub insert_by : (R → R → Bool) → R → List R → List R
  insert_by below r [] = r ∷ []
  insert_by below r (x ∷ xs) = if below r x then r ∷ x ∷ xs else x ∷ insert_by below r xs

  unfoldable pub sort_by : (R → R → Bool) → List R → List R
  unfolding insert_by
  sort_by below [] = []
  sort_by below (r ∷ rs) = insert_by below r (sort_by below rs)

module _ {ℓ κ} {R : Type ℓ} (P : R → Type κ) where
  pub select-All : (p : R → Bool) (rs : List R) → All P rs → All P (select p rs)
  unfolding select
  select-All p [] a = tt
  select-All p (r ∷ rs) a = elim (Bool-cases (p r)) [
    | inl meets ↦ rw meets (a.0, select-All p rs a.1)
    | inr misses ↦ rw misses (select-All p rs a.1)
  ]

  pub insert_by-All :
      (b : R → R → Bool) (r : R) (rs : List R) → P r → All P rs → All P (insert_by b r rs)
  unfolding insert_by
  insert_by-All b r [] h a = (h, tt)
  insert_by-All b r (x ∷ xs) h a = elim (Bool-cases (b r x)) [
    | inl first ↦ rw first (h, a)
    | inr later ↦ rw later (a.0, insert_by-All b r xs h a.1)
  ]

  pub sort_by-All : (b : R → R → Bool) (rs : List R) → All P rs → All P (sort_by b rs)
  unfolding sort_by
  sort_by-All b [] a = tt
  sort_by-All b (r ∷ rs) a = insert_by-All b r (sort_by b rs) a.0 (sort_by-All b rs a.1)

  pub take-All : (n : ℕ) (rs : List R) → All P rs → All P (take n rs)
  take-All zero rs a = tt
  take-All (suc n) [] a = tt
  take-All (suc n) (r ∷ rs) a = (a.0, take-All n rs a.1)

module _ {ℓ κ} {R : Type ℓ} (P : R → Type κ) where
  of-insert_by :
      (b : R → R → Bool) (r : R) (rs : List R) → All P (insert_by b r rs) → P r × All P rs
  unfolding insert_by
  of-insert_by b r [] a = (a.0, tt)
  of-insert_by b r (x ∷ xs) a = go (b r x) (of-insert_by b r xs) a
    where
      go :
          (first : Bool)
          → (All P (insert_by b r xs) → P r × All P xs)
          → All P (if first then r ∷ x ∷ xs else x ∷ insert_by b r xs)
          → P r × All P (x ∷ xs)
      go true rest a = a
      go false rest a = let (h, others) = rest a.1 in (h, (a.0, others))

  -- What holds of the sorted list holds of the list.
  pub of-sort_by : (b : R → R → Bool) (rs : List R) → All P (sort_by b rs) → All P rs
  unfolding sort_by
  of-sort_by b [] a = tt
  of-sort_by b (r ∷ rs) a =
      let (h, rest) = of-insert_by b r (sort_by b rs) a in (h, of-sort_by b rs rest)

  -- What holds of the selected elements.
  pub of-select :
      (p : R → Bool) (rs : List R) → All P (select p rs) → All (λ r. p r ≡ true → P r) rs
  unfolding select
  of-select p [] a = tt
  of-select p (r ∷ rs) a = go (p r) refl (of-select p rs) a
    where
      go :
          (b : Bool)
          → p r ≡ b
          → (All P (select p rs) → All (λ x. p x ≡ true → P x) rs)
          → All P (if b then r ∷ select p rs else select p rs)
          → (p r ≡ true → P r) × All (λ x. p x ≡ true → P x) rs
      go true e rest a = (λ _. a.0, rest a.1)
      go false e rest a = (λ h. cc (h, e), rest a)

pub All-map {ℓ κ ι} :
    {R : Type ℓ} {P : R → Type κ} {Q : R → Type ι}
    → ((r : R) → P r → Q r)
    → (rs : List R) → All P rs
    → All Q rs
All-map f [] a = tt
All-map f (r ∷ rs) a = (f r a.0, All-map f rs a.1)

module _ {ℓ} {R : Type ℓ} where
  -- What is selected meets the condition.
  pub All-select : (p : R → Bool) (rs : List R) → All (λ r. p r ≡ true) (select p rs)
  unfolding select
  All-select p [] = tt
  All-select p (r ∷ rs) = elim (Bool-cases (p r)) [
    | inl meets ↦ rw meets (meets, All-select p rs)
    | inr misses ↦ rw misses (All-select p rs)
  ]

  pub count_where-length : (p : R → Bool) (rs : List R) → count_where p rs ≤ length rs
  unfolding count_where
  count_where-length p [] = omega arith
  count_where-length p (r ∷ rs) = ground (arith, count_where-length p rs)

  pub count_where-none :
      (p : R → Bool) (rs : List R) → All (λ r. p r ≡ false) rs → count_where p rs ≡ 0
  unfolding count_where
  count_where-none p [] a = refl
  count_where-none p (r ∷ rs) a = ground (arith, a.0, count_where-none p rs a.1)

-- With unique keys every row is the one that is found under its key.
pub Unique-found {ℓ κ} :
    {R : Type ℓ} {K : Type κ} ⦃e : Eq K⦄ (key : R → K) (rs : List R)
    → Unique key rs
    → All (λ r. find key (key r) rs ≡ some r) rs
unfolding find
Unique-found key [] u = tt
Unique-found key (r ∷ rs) u = (
  ground arith,
  All-map {P = λ c. find key (key c) rs ≡ some c} (λ c h. ground (arith, h, u.0)) rs
      (Unique-found key rs u.1),
)

pub All-both {ℓ κ ι} :
    {R : Type ℓ} (P : R → Type κ) (Q : R → Type ι) (rs : List R)
    → All P rs
    → All Q rs
    → All (λ r. P r × Q r) rs
All-both P Q [] a b = tt
All-both P Q (r ∷ rs) a b = ((a.0, b.0), All-both P Q rs a.1 b.1)
