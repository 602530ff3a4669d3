-- ===== src/Tasks/Observe.antt =====
-- soma/tasks/backends.py: what a task sees of its durable run.
use codex_bridge.Prelude.{
  String, Bool, true, false, not, Option, none, some, ◌==◌, string_eq, if◌then◌else◌,
}
use codex_bridge.Prelude.Table.{find}
use codex_bridge.Runs.Model.{Status, other_status, Run, Database, run_key}
use codex_bridge.Runs.RunId.{is_run_id}

-- `BackendObservation`, the values that a task is derived from.
pub record Observation : Type 0 where
  pub is_there : Bool
  pub status : Status
  pub executor : String
  pub repo_name : String
  pub started_at : Option String
  pub ended_at : Option String
  pub result_published_hash : String

abbrev pub absent : Observation
absent = record {
  is_there = false;
  status = other_status "";
  executor = "";
  repo_name = "";
  started_at = none;
  ended_at = none;
  result_published_hash = "";
}

abbrev pub observed : Run → Observation
observed r = record {
  is_there = true;
  status = r.status;
  executor = r.tool;
  repo_name = r.repo_name;
  started_at = r.started_at;
  ended_at = r.ended_at;
  result_published_hash = r.result_published_hash;
}

-- `DurableRunBackend.query`
unfoldable pub query : String → Database → Observation
query backend_ref db =
    if backend_ref == ""
    then absent
    else if not (is_run_id backend_ref)
    then absent
    else elim (find run_key backend_ref db.runs) [ none ↦ absent | some r ↦ observed r ]
