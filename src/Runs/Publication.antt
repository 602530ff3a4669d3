-- ===== src/Runs/Publication.antt =====
-- soma/run_store.py: the publication of terminal results.
use codex_bridge.Prelude.{
  ℕ, String, false, not, Option, none, some, List, [], ◌∷◌, ◌++◌, contains, string_eq,
  if◌then◌else◌, Action, throw, value_error,
}
use codex_bridge.Prelude.Text.{Object}
use codex_bridge.Runs.Model.{
  terminal_statuses, Run, Assignment, Database, set_result_publication_status,
  set_result_published_hash, set_result_published_at, set_result_publication_error,
  set_public_result, set_public_result_schema_version, set_public_result_source_sha256,
  set_public_result_status, set_public_result_error,
}
use codex_bridge.Runs.Update.{Guard, conditional_update}
use codex_bridge.Runs.Worker.{bump}

-- The conditions of a publication: the run has ended, at the version that was read.
abbrev pub ended_at_version : ℕ → Guard
ended_at_version version = record {
  expected_statuses = some terminal_statuses;
  expected_state_version = some version;
  expected_lease_token = none;
  expected_lease_generation = none;
  expected_heartbeat_at = none;
  reject_terminal = false;
}

abbrev pub publication_statuses : List String
publication_statuses = "published" ∷ "failed" ∷ "pending" ∷ []

abbrev pub public_result_statuses : List String
public_result_statuses = "not_materialized" ∷ "ready" ∷ "fallback" ∷ []

abbrev publication_fields : String → String → Option String → String → List Assignment
publication_fields status hash published_at error =
    set_result_publication_status status
    ∷ set_result_published_hash hash
    ∷ set_result_published_at published_at
    ∷ set_result_publication_error error
    ∷ []

abbrev projection_fields : Object → String → String → String → List Assignment
projection_fields public_result source_sha256 status error =
    set_public_result public_result
    ∷ set_public_result_schema_version "cf1.public-result.v1"
    ∷ set_public_result_source_sha256 source_sha256
    ∷ set_public_result_status status
    ∷ set_public_result_error error
    ∷ []

-- `record_result_publication`
unfoldable pub record_result_publication :
    String → String → String → Option String → String → ℕ → Action Database (Option Run)
record_result_publication run_id status hash published_at error version =
    if not (contains publication_statuses status)
    then throw value_error
    else conditional_update run_id (publication_fields status hash published_at error)
        (ended_at_version version) bump

-- `record_result_publication_with_projection`
unfoldable pub record_result_publication_with_projection :
    String
    → String
    → String
    → Option String
    → String
    → Object
    → String
    → String
    → String
    → ℕ
    → Action Database (Option Run)
record_result_publication_with_projection run_id status hash published_at error public_result
      source_sha256 public_status public_error version =
    if not (contains publication_statuses status)
    then throw value_error
    else if not (contains public_result_statuses public_status)
    then throw value_error
    else conditional_update run_id
        (publication_fields status hash published_at error
          ++ projection_fields public_result source_sha256 public_status public_error)
        (ended_at_version version) bump

-- `record_public_result`
unfoldable pub record_public_result :
    String → Object → String → String → String → ℕ → Action Database (Option Run)
record_public_result run_id public_result source_sha256 status error version =
    if not (contains public_result_statuses status)
    then throw value_error
    else conditional_update run_id (projection_fields public_result source_sha256 status error)
        (ended_at_version version) bump
