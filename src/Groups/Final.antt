-- ===== src/Groups/Final.antt =====
-- soma/parallel_groups.py and soma/run_store.py: a group whose children have ended keeps the status
-- that it was given.
use mathlib.Core.Path.{subst, ap₂}
use codex_bridge.Prelude.{
  String, true, none, some, List, [], ◌∷◌, ◌≡◌, refl, sym, ap, ◌∙◌, string_eq, nat_eq, arith,
  length, All, Bool-cases, inl, inr,
}
use codex_bridge.Prelude.Table.{find, count_where, find-update_same}
use codex_bridge.Prelude.Order.{select, sort_by, sort_by-All, select-All, count_where-length}
use codex_bridge.Runs.RunId.{is_run_id}
use codex_bridge.Runs.Model.{Status, status_eq, is_terminal, Run, Database, run_key}
use codex_bridge.Runs.Writes.{Write, perform_all, all_careful}
use codex_bridge.Runs.Evolution.{AllEvolve}
use codex_bridge.Runs.Lifecycle.{perform_all-AllEvolve}
use codex_bridge.Groups.Tables.{
  Group, Child, GroupTables, ChildView, group_key, group_children, join_runs, view_of, is_in_group,
  is_before,
}
use codex_bridge.Groups.Refresh.{
  aggregate, is_finished, refreshed, every_group, refresh_group, statuses_of,
}

-- The foreign key of a child.
abbrev pub HasRun : List Run → Child → Type 0
HasRun runs c = (r : Run) × (find run_key c.run_id runs ≡ some r)

-- The run of the child has ended.
abbrev HasEnded : List Run → Child → Type 0
HasEnded runs c = (r : Run) × (find run_key c.run_id runs ≡ some r) × (is_terminal r.status ≡ true)

count_where-terminal :
    (xs : List Status) → count_where is_terminal xs ≡ length xs → All (λ s. is_terminal s ≡ true) xs
unfolding count_where
count_where-terminal [] h = tt
count_where-terminal (x ∷ xs) h = elim (Bool-cases (is_terminal x)) [
  | inl ends ↦ (ends, count_where-terminal xs (ground (arith, h, ends)))
  | inr lives ↦ absurd (ground (arith, h, lives, count_where-length is_terminal xs))
]

-- A finished list of statuses is not empty, and every status in it is terminal.
terminal_of_finished :
    (xs : List Status) → is_finished xs ≡ true → All (λ s. is_terminal s ≡ true) xs
unfolding is_finished nat_eq
terminal_of_finished xs h = count_where-terminal xs (ground (arith, h))

pub aggregate-is_terminal : (xs : List Status) → is_terminal (aggregate xs) ≡ is_finished xs
unfolding aggregate is_terminal status_eq
aggregate-is_terminal xs = ground arith

statuses-join_runs :
    (runs : List Run) (c : Child) (cs : List Child) (r : Run)
    → find run_key c.run_id runs ≡ some r
    → statuses_of (join_runs runs (c ∷ cs)) ≡ r.status ∷ statuses_of (join_runs runs cs)
unfolding join_runs view_of
statuses-join_runs runs c cs r found =
    ap
      (λ o.
        statuses_of
          (elim o [ none ↦ join_runs runs cs | some x ↦ view_of c x ∷ join_runs runs cs ]))
      found

joined-ended :
    (runs : List Run) (cs : List Child)
    → All (HasRun runs) cs
    → All (λ s. is_terminal s ≡ true) (statuses_of (join_runs runs cs))
    → All (HasEnded runs) cs
joined-ended runs [] has ends = tt
joined-ended runs (c ∷ cs) has ends =
    let (r, found) = has.0 in
    let seen =
      subst (All (λ s. is_terminal s ≡ true)) (statuses-join_runs runs c cs r found) ends in
    ((r, found, seen.0), joined-ended runs cs has.1 seen.1)

-- Terminal children look the same where every run has kept what a terminal run reports.
statuses-AllEvolve :
    (db db' : Database) (cs : List Child)
    → AllEvolve db db'
    → All (HasEnded db.runs) cs
    → statuses_of (join_runs db'.runs cs) ≡ statuses_of (join_runs db.runs cs)
unfolding join_runs
statuses-AllEvolve db db' [] e ends = refl
statuses-AllEvolve db db' (c ∷ cs) e ends =
    let (r, found, terminal) = ends.0 in
    let (r', found', later) = e c.run_id r found in
    statuses-join_runs db'.runs c cs r' found'
    ∙ ap₂ ◌∷◌ (ap (λ x. x.status) (later.final_report terminal))
        (statuses-AllEvolve db db' cs e ends.1)
    ∙ sym (statuses-join_runs db.runs c cs r found)

module _ (group_id : String) (now : String) (tables : GroupTables) where
  abbrev shown : List ChildView
  shown = group_children group_id tables

  refresh_group-found :
      (g : Group)
      → is_run_id group_id ≡ true
      → find group_key group_id tables.groups ≡ some g
      → find group_key group_id (refresh_group group_id now tables).1.groups
        ≡ some (refreshed shown now g)
  unfolding refresh_group
  refresh_group-found g valid found = ground (
    arith,
    valid,
    found,
    find-update_same group_key group_id every_group (refreshed shown now) (λ x. refl) tables.groups
        g found refl,
  )

  db-refresh_group : (refresh_group group_id now tables).1.db ≡ tables.db
  unfolding refresh_group
  db-refresh_group = ground arith

  children-refresh_group : (refresh_group group_id now tables).1.children ≡ tables.children
  unfolding refresh_group
  children-refresh_group = ground arith

-- A group whose children have runs that have all ended.
abbrev IsOver : String → GroupTables → Type 0
IsOver group_id tables =
    All (HasRun tables.db.runs) tables.children
    × (is_finished (statuses_of (group_children group_id tables)) ≡ true)

-- Its children look the same in every later state of the run store.
statuses-later :
    (group_id : String) (tables later : GroupTables) (ws : List Write)
    → all_careful ws ≡ true
    → IsOver group_id tables
    → later.children ≡ tables.children
    → later.db ≡ perform_all ws tables.db
    → statuses_of (group_children group_id later) ≡ statuses_of (group_children group_id tables)
unfolding group_children
statuses-later group_id tables later ws c over same_children same_db =
    let cs = sort_by is_before (select (is_in_group group_id) tables.children) in
    let P = HasRun tables.db.runs in
    let has =
      sort_by-All P is_before (select (is_in_group group_id) tables.children)
        (select-All P (is_in_group group_id) tables.children over.0) in
    rw (same_children, same_db)
      (statuses-AllEvolve tables.db (perform_all ws tables.db) cs
        (perform_all-AllEvolve ws tables.db c)
        (joined-ended tables.db.runs cs has
          (terminal_of_finished (statuses_of (join_runs tables.db.runs cs)) over.1)))

abbrev pub after_refresh : String → String → GroupTables → GroupTables
after_refresh group_id now tables = (refresh_group group_id now tables).1

abbrev pub after_writes : List Write → GroupTables → GroupTables
after_writes ws tables = record tables { db = perform_all ws tables.db }

-- Once the runs of all children of a group have ended, a refresh gives the group a terminal
-- status, and after every sequence of careful writes to the run store, of all its writes other
-- than update_run, the next refresh gives it the same status. A direct conditional_update is
-- careful if it writes no lease, and what a run reports (status, end, duration, exit code,
-- summary, error, safety flag, result) only if it rejects terminal runs; every other write is.
pub refresh_group-final :
    (group_id now now' : String) (ws : List Write) (tables : GroupTables) (g : Group)
    → is_run_id group_id ≡ true
    → find group_key group_id tables.groups ≡ some g
    → All (HasRun tables.db.runs) tables.children
    → is_finished (statuses_of (group_children group_id tables)) ≡ true
    → all_careful ws ≡ true
    → let seen = after_refresh group_id now tables in
      (g1 : Group) × (g2 : Group) × (find group_key group_id seen.groups ≡ some g1)
      × (find group_key group_id (after_refresh group_id now' (after_writes ws seen)).groups
          ≡ some g2)
      × (is_terminal g1.status ≡ true)
      × (g2.status ≡ g1.status)
unfolding refreshed
refresh_group-final group_id now now' ws tables g valid found has over c =
    let seen = after_refresh group_id now tables in
    let later = after_writes ws seen in
    let g1 = refreshed (group_children group_id tables) now g in
    let found1 = refresh_group-found group_id now tables g valid found in
    (
      g1,
      refreshed (group_children group_id later) now' g1,
      found1,
      refresh_group-found group_id now' later g1 valid found1,
      aggregate-is_terminal (statuses_of (group_children group_id tables)) ∙ over,
      ap aggregate (
          statuses-later group_id tables later ws c (has, over)
            (children-refresh_group group_id now tables)
            (ap (perform_all ws) (db-refresh_group group_id now tables))),
    )
