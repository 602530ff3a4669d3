-- ===== src/Prelude/Table.antt =====
-- A table of a database: its rows, and the statements that the stores run on it.
use Prim.Native.Nat.{ℕ, suc}
use mathlib.Core.Path.{◌≡◌, refl, ◌∙◌}
use mathlib.Core.Logic.{◌≢◌}
use mathlib.Core.Bool.{Bool, true, ◌&&◌}
use mathlib.Core.Option
use mathlib.Core.Option.{Option, none, some}
use mathlib.Core.List.{List, [], ◌∷◌}
use native.Mathlib.Omega.{arith}
use codex_bridge.Prelude.Tests.{Eq, ◌==◌, if◌then◌else◌}

module _ {ℓ} {R : Type ℓ} where
  -- `UPDATE t SET f WHERE p`
  unfoldable pub update_where : (R → Bool) → (R → R) → List R → List R
  update_where p f [] = []
  update_where p f (r ∷ rs) = (if p r then f r else r) ∷ update_where p f rs

  -- `cursor.rowcount` of an update or a delete with that condition.
  unfoldable pub count_where : (R → Bool) → List R → ℕ
  count_where p [] = 0
  count_where p (r ∷ rs) = if p r then suc (count_where p rs) else count_where p rs

  -- `DELETE FROM t WHERE p`
  unfoldable pub delete_where : (R → Bool) → List R → List R
  delete_where p [] = []
  delete_where p (r ∷ rs) = if p r then delete_where p rs else r ∷ delete_where p rs

  pub update_where_of_count :
      (p : R → Bool) (f : R → R) (rs : List R) → count_where p rs ≡ 0 → update_where p f rs ≡ rs
  unfolding update_where count_where
  update_where_of_count p f [] h = refl
  update_where_of_count p f (r ∷ rs) h = ground (arith, update_where_of_count p f rs)

  pub delete_where_of_count :
      (p : R → Bool) (rs : List R) → count_where p rs ≡ 0 → delete_where p rs ≡ rs
  unfolding delete_where count_where
  delete_where_of_count p [] h = refl
  delete_where_of_count p (r ∷ rs) h = ground (arith, delete_where_of_count p rs)

-- What a delete with that condition leaves of a row.
abbrev pub unless {ℓ} : {A : Type ℓ} → (A → Bool) → Option A → Option A
unless p none = none
unless p (some r) = if p r then none else some r

module _ {ℓ κ} {R : Type ℓ} {K : Type κ} ⦃e : Eq K⦄ (key : R → K) where
  -- `SELECT * FROM t WHERE key = k`, of which the first row is read.
  unfoldable pub find : K → List R → Option R
  find k [] = none
  find k (r ∷ rs) = if key r == k then some r else find k rs

  -- The primary key.
  abbrev pub Unique : List R → Type ℓ
  Unique [] = Unit
  Unique (r ∷ rs) = (find (key r) rs ≡ none) × Unique rs

  -- `key = k AND g`
  abbrev pub keyed : K → (R → Bool) → R → Bool
  keyed k g r = key r == k && g r

  pub key-find : (k : K) (rs : List R) (r : R) → find k rs ≡ some r → key r ≡ k
  unfolding find
  key-find k [] r h = cc
  key-find k (x ∷ rs) r h = ground (arith, key-find k rs r)

  module _ (k : K) (g : R → Bool) (f : R → R) (same : (r : R) → key (f r) ≡ key r) where
    -- An update that keeps the keys maps what is found.
    pub find-update :
        (j : K) (rs : List R)
        → find j (update_where (keyed k g) f rs)
          ≡ Option.map (λ r. if keyed k g r then f r else r) (find j rs)
    unfolding find update_where
    find-update j [] = refl
    find-update j (r ∷ rs) = ground (arith, find-update j rs, same r)

    -- Under the key itself the row that meets the condition is the new one.
    pub find-update_same :
        (rs : List R) (r : R)
        → find k rs ≡ some r
        → g r ≡ true
        → find k (update_where (keyed k g) f rs) ≡ some (f r)
    find-update_same rs r h fits = find-update k rs ∙ ground (arith, h, fits, key-find k rs r h)

    -- Under every other key nothing changes.
    pub find-update_other :
        (j : K) (rs : List R) → j ≢ k → find j (update_where (keyed k g) f rs) ≡ find j rs
    unfolding find update_where
    find-update_other j [] other = refl
    find-update_other j (r ∷ rs) other = ground (arith, find-update_other j rs other, same r)

    pub update-Unique : (rs : List R) → Unique rs → Unique (update_where (keyed k g) f rs)
    unfolding update_where
    update-Unique [] u = tt
    update-Unique (r ∷ rs) u = ground (arith, update-Unique rs u.1, find-update (key r) rs, same r)

  module _ (p : R → Bool) (f : R → R) (same : (r : R) → key (f r) ≡ key r) where
    -- The same under a condition that is not on the key.
    pub find-update_where :
        (j : K) (rs : List R)
        → find j (update_where p f rs) ≡ Option.map (λ r. if p r then f r else r) (find j rs)
    unfolding find update_where
    find-update_where j [] = refl
    find-update_where j (r ∷ rs) = ground (arith, find-update_where j rs, same r)

    pub update_where-Unique : (rs : List R) → Unique rs → Unique (update_where p f rs)
    unfolding update_where
    update_where-Unique [] u = tt
    update_where-Unique (r ∷ rs) u =
        ground (arith, update_where-Unique rs u.1, find-update_where (key r) rs, same r)

  find-none-count :
      (k : K) (g : R → Bool) (rs : List R) → find k rs ≡ none → count_where (keyed k g) rs ≡ 0
  unfolding find count_where
  find-none-count k g [] h = refl
  find-none-count k g (r ∷ rs) h = ground (arith, find-none-count k g rs)

  -- With unique keys a keyed statement meets the row that is found, or none.
  pub count-find :
      (k : K) (g : R → Bool) (rs : List R)
      → Unique rs
      → count_where (keyed k g) rs ≡ elim (find k rs) [ none ↦ 0 | some r ↦ if g r then 1 else 0 ]
  unfolding find count_where
  count-find k g [] u = refl
  count-find k g (r ∷ rs) u = ground (arith, count-find k g rs u.1, find-none-count k g rs)

  find-none-delete :
      (k j : K) (g : R → Bool) (rs : List R)
      → find j rs ≡ none
      → find j (delete_where (keyed k g) rs) ≡ none
  unfolding find delete_where
  find-none-delete k j g [] h = refl
  find-none-delete k j g (r ∷ rs) h = ground (arith, find-none-delete k j g rs)

  pub find-delete :
      (k j : K) (g : R → Bool) (rs : List R)
      → Unique rs
      → find j (delete_where (keyed k g) rs) ≡ unless (keyed k g) (find j rs)
  unfolding find delete_where
  find-delete k j g [] u = refl
  find-delete k j g (r ∷ rs) u = ground (arith, find-delete k j g rs u.1, find-none-delete k j g rs)

  pub find-delete_other :
      (k j : K) (g : R → Bool) (rs : List R)
      → j ≢ k
      → find j (delete_where (keyed k g) rs) ≡ find j rs
  unfolding find delete_where
  find-delete_other k j g [] other = refl
  find-delete_other k j g (r ∷ rs) other = ground (arith, find-delete_other k j g rs other)

  pub delete-Unique :
      (k : K) (g : R → Bool) (rs : List R) → Unique rs → Unique (delete_where (keyed k g) rs)
  unfolding delete_where
  delete-Unique k g [] u = tt
  delete-Unique k g (r ∷ rs) u =
      ground (arith, delete-Unique k g rs u.1, find-none-delete k (key r) g rs u.0)

  -- `INSERT`: the statement raises where the primary key is taken.
  unfoldable pub insert : R → List R → Option (List R)
  unfolding find
  insert r rs = elim (find (key r) rs) [ none ↦ some (r ∷ rs) | some _ ↦ none ]

  pub insert-Unique : (r : R) (rs rs' : List R) → insert r rs ≡ some rs' → Unique rs → Unique rs'
  unfolding insert
  insert-Unique r rs rs' h u = ground arith

  pub find-insert :
      (r : R) (rs rs' : List R) (j : K)
      → insert r rs ≡ some rs'
      → find j rs' ≡ (if key r == j then some r else find j rs)
  unfolding insert
  find-insert r rs rs' j h = ground arith

  -- A row that was there is found as before.
  pub find-insert_old :
      (r : R) (rs rs' : List R) (j : K) (x : R)
      → insert r rs ≡ some rs'
      → find j rs ≡ some x
      → find j rs' ≡ some x
  unfolding insert find
  find-insert_old r rs rs' j x h f = ground arith
