-- ===== src/Runs/Cas.antt =====
-- soma/run_store.py: `conditional_update` is a compare-and-set on one row.
use mathlib.Core.Option
use codex_bridge.Prelude.{
  String, ◌≡◌, refl, ◌≢◌, ◌∙◌, sym, ap, true, false, Option, none, some, List, [], ◌∷◌,
  if◌then◌else◌, ok, arith, Option-cases, inl, inr, nat_eq, string_eq,
}
use codex_bridge.Prelude.Table.{
  find, count_where, keyed, Unique, key-find, find-update, update-Unique, count-find,
  update_where_of_count,
}
use codex_bridge.Runs.Model.{Run, Assignment, Database, run_key, set_status}
use codex_bridge.Runs.Update.{
  Guard, Bump, assign, assign_all, normalize, written, admits, is_request, update_rows,
  conditional_update, rejects_all, expects_status,
}
use codex_bridge.Runs.RunId.{is_run_id}

-- No assignment changes the key or the version of a row.
run_id-assign : (a : Assignment) (r : Run) → (assign a r).run_id ≡ r.run_id
unfolding assign
run_id-assign (set_status v) r = refl
run_id-assign _ r = refl

run_id-assign_all : (fields : List Assignment) (r : Run) → (assign_all fields r).run_id ≡ r.run_id
unfolding assign_all
run_id-assign_all [] r = refl
run_id-assign_all (a ∷ rest) r = run_id-assign_all rest (assign a r) ∙ run_id-assign a r

pub run_id-written :
    (fields : List Assignment) (b : Bump) (r : Run) → run_key (written fields b r) ≡ run_key r
unfolding written
run_id-written fields b r = run_id-assign_all fields r

-- The row that a compare-and-set meets.
abbrev pub met : String → Guard → Database → Option Run
met run_id g db = elim (find run_key run_id db.runs) [
  | none ↦ none
  | some r ↦ if admits g r then some r else none
]

-- The write, as a function of one row.
abbrev pub after_write : String → List Assignment → Guard → Bump → Run → Run
after_write run_id fields g b r =
    if keyed run_key run_id (admits g) r then written (normalize fields) b r else r

ok_some-injective {ℓ} : {A : Type ℓ} (a b : A) → ok (some a) ≡ ok (some b) → a ≡ b
ok_some-injective a b h = cc

ok_some-ne-none {ℓ} : {A : Type ℓ} (a : A) → ok (some a) ≢ ok none
ok_some-ne-none a h = cc

some_of_ne_none {ℓ} : {A : Type ℓ} (o : Option A) → o ≢ none → (a : A) × (o ≡ some a)
some_of_ne_none none h = absurd (h refl)
some_of_ne_none (some a) h = (a, refl)

is_run_id_of_is_request :
    (run_id : String) (fields : List Assignment) (b : Bump)
    → is_request run_id fields b ≡ true
    → is_run_id run_id ≡ true
unfolding is_request
is_run_id_of_is_request run_id fields b h = ground arith

not-rejects_all : (g : Guard) (r : Run) → admits g r ≡ true → rejects_all g ≡ false
unfolding admits rejects_all expects_status
not-rejects_all g r h = ground arith

module _ (run_id : String) (fields : List Assignment) (g : Guard) (b : Bump) (db : Database) where
  pub find-update_rows :
      (j : String)
      → find run_key j (update_rows run_id fields g b db).runs
        ≡ Option.map (after_write run_id fields g b) (find run_key j db.runs)
  unfolding update_rows
  find-update_rows j =
      find-update run_key run_id (admits g) (written (normalize fields) b)
        (run_id-written (normalize fields) b) j db.runs

  pub update_rows-Unique :
      Unique run_key db.runs → Unique run_key (update_rows run_id fields g b db).runs
  unfolding update_rows
  update_rows-Unique u =
      update-Unique run_key run_id (admits g) (written (normalize fields) b)
        (run_id-written (normalize fields) b) db.runs u

  -- With unique keys the statement meets one row, or none.
  count-met :
      Unique run_key db.runs
      → count_where (keyed run_key run_id (admits g)) db.runs
        ≡ elim (met run_id g db) [ none ↦ 0 | some _ ↦ 1 ]
  count-met u = count-find run_key run_id (admits g) db.runs u ∙ ground arith

  update_rows_of_none :
      Unique run_key db.runs → met run_id g db ≡ none → update_rows run_id fields g b db ≡ db
  unfolding update_rows
  update_rows_of_none u h = rw (
      update_where_of_count (keyed run_key run_id (admits g)) (written (normalize fields) b) db.runs
        (ground (arith, count-met u)))

  pub find-met :
      (r : Run)
      → met run_id g db ≡ some r
      → (find run_key run_id db.runs ≡ some r) × (admits g r ≡ true)
  find-met r h = ground arith

  -- What the call returns, where its arguments are accepted.
  pub conditional_update-some :
      (r : Run)
      → Unique run_key db.runs
      → is_request run_id fields b ≡ true
      → met run_id g db ≡ some r
      → conditional_update run_id fields g b db
        ≡ (ok (some (written (normalize fields) b r)), update_rows run_id fields g b db)
  unfolding conditional_update nat_eq
  conditional_update-some r u h m =
      let (found, fits) = find-met r m in
      ground (
        arith,
        count-met u,
        is_run_id_of_is_request run_id fields b h,
        not-rejects_all g r fits,
        find-update_rows run_id,
        key-find run_key run_id db.runs r found,
      )

  pub conditional_update-none :
      Unique run_key db.runs
      → is_request run_id fields b ≡ true
      → met run_id g db ≡ none
      → conditional_update run_id fields g b db ≡ (ok none, db)
  unfolding conditional_update nat_eq
  conditional_update-none u h m = ground (arith, count-met u, update_rows_of_none u m)

  -- With unique run identifiers and accepted arguments, conditional_update is a compare-and-set:
  -- it returns the new row exactly if the run exists and meets every condition, it writes that row
  -- and no other, and where it returns none it changes nothing.
  pub conditional_update_lem :
      Unique run_key db.runs
      → is_request run_id fields b ≡ true
      → ((conditional_update run_id fields g b db).0
          ≡ ok (Option.map (written (normalize fields) b) (met run_id g db)))
        × ((j : String)
            → find run_key j (conditional_update run_id fields g b db).1.runs
              ≡ Option.map (after_write run_id fields g b) (find run_key j db.runs))
        × (met run_id g db ≡ none → (conditional_update run_id fields g b db).1 ≡ db)
  conditional_update_lem u h = elim (Option-cases (met run_id g db)) [
    | inl none_met ↦ (
      rw (conditional_update-none u h none_met) (ap ok (rw none_met)),
      λ j. rw (conditional_update-none u h none_met) (
          ap (λ d. find run_key j d.runs) (sym (update_rows_of_none u none_met))
          ∙ find-update_rows j),
      λ _. rw (conditional_update-none u h none_met),
    )
    | inr (r, m) ↦ (
      rw (conditional_update-some r u h m) (ap ok (rw m)),
      λ j. rw (conditional_update-some r u h m) (find-update_rows j),
      λ e. cc (e, m),
    )
  ]

  met-ne-none :
      (r : Run)
      → Unique run_key db.runs
      → is_request run_id fields b ≡ true
      → (conditional_update run_id fields g b db).0 ≡ ok (some r)
      → met run_id g db ≢ none
  met-ne-none r u h e n = ok_some-ne-none r (sym e ∙ ap (λ x. x.0) (conditional_update-none u h n))

  -- What a call that succeeded tells of the row before it.
  pub written_of_ok :
      (r before : Run)
      → Unique run_key db.runs
      → is_request run_id fields b ≡ true
      → (conditional_update run_id fields g b db).0 ≡ ok (some r)
      → met run_id g db ≡ some before
      → r ≡ written (normalize fields) b before
  written_of_ok r before u h e m =
      ok_some-injective r (written (normalize fields) b before)
        (sym e ∙ ap (λ x. x.0) (conditional_update-some before u h m))

  pub met_of_ok :
      (r : Run)
      → Unique run_key db.runs
      → is_request run_id fields b ≡ true
      → (conditional_update run_id fields g b db).0 ≡ ok (some r)
      → (before : Run) × (met run_id g db ≡ some before)
  met_of_ok r u h e = some_of_ne_none (met run_id g db) (met-ne-none r u h e)
