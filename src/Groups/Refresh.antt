-- ===== src/Groups/Refresh.antt =====
-- soma/parallel_groups.py: the aggregate status of a group, derived from the runs of its children.
use codex_bridge.Prelude.{
  ℕ, String, Bool, true, false, Option, none, some, List, [], ◌∷◌, ◌==◌, ◌&&◌, ◌||◌, contains,
  string_eq, nat_eq, not, if◌then◌else◌, Action, ok, raised, length, map, value_error, key_error,
}
use codex_bridge.Prelude.Table.{find, update_where, count_where, keyed}
use codex_bridge.Prelude.Order.{text_leb, select, sort_by}
use codex_bridge.Runs.RunId.{is_run_id}
use codex_bridge.Runs.Model.{
  Status, status_eq, is_terminal, launch_pending, queued, running, cancellation_pending,
  recovery_pending, completed, partial, failed, cancelled, timed_out,
}
use codex_bridge.Runs.Progress.{status_text}
use codex_bridge.Groups.Tables.{
  Group, GroupTables, ChildView, Snapshot, group_key, group_children, get_group,
}

unfoldable pub all_are : (Status → Bool) → List Status → Bool
all_are p [] = true
all_are p (s ∷ rest) = p s && all_are p rest

unfoldable pub any_is : (Status → Bool) → List Status → Bool
any_is p [] = false
any_is p (s ∷ rest) = p s || any_is p rest

abbrev pub is_status : Status → Status → Bool
is_status t s = s == t

abbrev pub is_failure : Status → Bool
is_failure s = contains (failed ∷ timed_out ∷ []) s

abbrev pub is_started : Status → Bool
is_started s = contains (queued ∷ running ∷ cancellation_pending ∷ recovery_pending ∷ []) s

-- `total and terminal_count == total`
unfoldable pub is_finished : List Status → Bool
unfolding nat_eq
is_finished statuses =
    not (length statuses == 0) && count_where is_terminal statuses == length statuses

-- The status of the group.
unfoldable pub aggregate : List Status → Status
unfolding is_finished all_are any_is status_eq
aggregate statuses =
    if is_finished statuses
    then (if all_are (is_status completed) statuses
        then completed
        else if all_are (is_status cancelled) statuses
        then cancelled
        else if any_is is_failure statuses
        then failed
        else partial)
    else if any_is is_started statuses
    then running
    else launch_pending

abbrev ended_text : ChildView → String
ended_text c = elim c.ended_at [ none ↦ "" | some t ↦ t ]

latest : List ChildView → String
unfolding text_leb
latest [] = ""
latest (c ∷ cs) =
    let rest = latest cs in if text_leb rest (ended_text c) then ended_text c else rest

-- The end of the group: that of the last child, or the time of the call.
unfoldable pub group_ended_at : List ChildView → List Status → String → Option String
unfolding latest is_finished
group_ended_at children statuses now =
    if is_finished statuses
    then some (if latest children == "" then now else latest children)
    else none

without : Status → List Status → List Status
without s statuses = select (λ t. not (t == s)) statuses

distinct : List Status → List Status
distinct [] = []
distinct (s ∷ rest) = let others = distinct rest in s ∷ without s others

-- `{status: statuses.count(status) for status in sorted(set(statuses))}`
unfoldable pub status_counts_of : List Status → List (Status × ℕ)
unfolding distinct without text_leb status_text
status_counts_of statuses =
    map (λ s. (s, count_where (is_status s) statuses))
      (sort_by (λ s t. text_leb (status_text s) (status_text t)) (distinct statuses))

abbrev pub statuses_of : List ChildView → List Status
statuses_of = map (λ c. c.status)

unfoldable pub snapshot : Group → List ChildView → Snapshot
unfolding status_counts_of aggregate
snapshot g children = record {
  group_id = g.group_id;
  repo_name = g.repo_name;
  status = aggregate (statuses_of children);
  child_count = length children;
  terminal_child_count = count_where is_terminal (statuses_of children);
  status_counts = status_counts_of (statuses_of children);
  children = children;
}

-- The row after the update.
unfoldable pub refreshed : List ChildView → String → Group → Group
unfolding snapshot group_ended_at aggregate
refreshed children now g = record g {
  status = aggregate (statuses_of children);
  ended_at = group_ended_at children (statuses_of children) now;
  result = some (snapshot g children);
}

abbrev pub every_group : Group → Bool
every_group g = true

-- `refresh_group`
unfoldable pub refresh_group : String → String → Action GroupTables (Group × List ChildView)
unfolding group_children refreshed get_group
refresh_group group_id now tables =
    if not (is_run_id group_id)
    then (raised value_error, tables)
    else elim (find group_key group_id tables.groups) [
      | none ↦ (raised key_error, tables)
      | some _ ↦
          let children = group_children group_id tables in
          let after = record tables {
            groups =
                update_where (keyed group_key group_id every_group) (refreshed children now)
                  tables.groups;
          } in
          (get_group group_id after, after)
    ]

abbrev is_created_before : Group → Group → Bool
is_created_before g h = text_leb g.created_at h.created_at

-- The comprehension over the identifiers, which stops where one call raises.
unfoldable pub refresh_each :
    List String → String → Action GroupTables (List (Group × List ChildView))
unfolding refresh_group
refresh_each [] now tables = (ok [], tables)
refresh_each (i ∷ rest) now tables = elim (refresh_group i now tables).0 [
  | raised e ↦ (raised e, (refresh_group i now tables).1)
  | ok shown ↦
      let others = refresh_each rest now (refresh_group i now tables).1 in
      elim others.0 [ raised e ↦ (raised e, others.1) | ok more ↦ (ok (shown ∷ more), others.1) ]
]

-- `refresh_all_groups`
unfoldable pub refresh_all_groups : String → Action GroupTables (List (Group × List ChildView))
unfolding refresh_each text_leb
refresh_all_groups now tables =
    refresh_each (map group_key (sort_by is_created_before tables.groups)) now tables
