-- ===== src/Tasks/Tables.antt =====
-- soma/tasks/models.py and soma/tasks/schema.py: the tables of the task plane. The enumerations of
-- the source are data types, and a JSON column holds its object.
use codex_bridge.Prelude.{
  ℕ, String, Bool, ◌&&◌, Option, List, [], ◌∷◌, Eq, ◌==◌, nat_eq, length, take, drop, ◌≡◌, refl,
  true, false,
}
use codex_bridge.Prelude.Chars.{codes, is_digit, is_hex, every, is_at, without_newline}
use codex_bridge.Prelude.Text.{Object}
use codex_bridge.Tasks.States.{TaskState, TaskPhase}

pub data TaskKind : Type 0 where
  durable_command : TaskKind

pub data BackendKind : Type 0 where
  soma_durable_run : BackendKind

pub BackendKind-discrete : Discrete BackendKind
BackendKind-discrete = hlevel

instance unfoldable pub backend_kind_eq : Eq BackendKind
unfolding BackendKind-discrete
backend_kind_eq = record { dec = BackendKind-discrete }

pub data LinkType : Type 0 where
  parent_link child_link backend_run_link related_link supersedes_link : LinkType

pub LinkType-discrete : Discrete LinkType
LinkType-discrete = hlevel

instance unfoldable pub link_type_eq : Eq LinkType
unfolding LinkType-discrete
link_type_eq = record { dec = LinkType-discrete }

pub data LinkTargetKind : Type 0 where
  task_target durable_run_target : LinkTargetKind

pub LinkTargetKind-discrete : Discrete LinkTargetKind
LinkTargetKind-discrete = hlevel

instance unfoldable pub link_target_kind_eq : Eq LinkTargetKind
unfolding LinkTargetKind-discrete
link_target_kind_eq = record { dec = LinkTargetKind-discrete }

pub data CommandKind : Type 0 where
  cancel_command : CommandKind

-- `TaskCommandStatus`
pub data CommandStatus : Type 0 where
  command_accepted rejected_stale_version command_completed command_failed : CommandStatus

-- `TaskCheckpointStatus`
pub data CheckpointStatus : Type 0 where
  checkpoint_open checkpoint_resolved checkpoint_cancelled : CheckpointStatus

pub CheckpointStatus-discrete : Discrete CheckpointStatus
CheckpointStatus-discrete = hlevel

instance unfoldable pub checkpoint_status_eq : Eq CheckpointStatus
unfolding CheckpointStatus-discrete
checkpoint_status_eq = record { dec = CheckpointStatus-discrete }

-- `TaskRecoveryState`
pub data RecoveryState : Type 0 where
  recovery_none recovery_waits recovery_resolved recovery_unresolved : RecoveryState

pub RecoveryState-discrete : Discrete RecoveryState
RecoveryState-discrete = hlevel

instance unfoldable pub recovery_state_eq : Eq RecoveryState
unfolding RecoveryState-discrete
recovery_state_eq = record { dec = RecoveryState-discrete }

-- `TaskEventLevel`
pub data EventLevel : Type 0 where
  info warning error : EventLevel

-- A row of `tasks`, which `TaskRecord` holds.
pub record Task : Type 0 where
  pub task_id : String
  pub parent_task_id : String
  pub task_kind : TaskKind
  pub controller_request_id : String
  pub request_hash : String
  pub objective_ref : String
  pub constraints_ref : String
  pub backend_kind : BackendKind
  pub backend_executor : String
  pub backend_ref : String
  pub backend_identity : Object
  pub workspace_kind : String
  pub workspace_ref : String
  pub state : TaskState
  pub phase : TaskPhase
  pub state_version : ℕ
  pub checkpoint_ref : String
  pub result_ref : String
  pub result_hash : String
  pub evidence_ref : String
  pub recovery_state : RecoveryState
  pub recovery_reason : String
  pub reconciled_at : Option String
  pub created_at : String
  pub updated_at : String
  pub started_at : Option String
  pub ended_at : Option String

-- A row of `task_links`.
pub record TaskLink : Type 0 where
  pub id : ℕ
  pub task_id : String
  pub link_type : LinkType
  pub target_kind : LinkTargetKind
  pub target_id : String
  pub created_at : String
  pub metadata : Object

-- A row of `task_commands`.
pub record TaskCommand : Type 0 where
  pub command_id : String
  pub task_id : String
  pub command_kind : CommandKind
  pub controller_request_id : String
  pub requested_state_version : ℕ
  pub observed_state_version : ℕ
  pub status : CommandStatus
  pub reason : String
  pub created_at : String
  pub completed_at : Option String

-- A row of `task_checkpoints`.
pub record TaskCheckpoint : Type 0 where
  pub checkpoint_id : String
  pub task_id : String
  pub kind : String
  pub prompt : String
  pub expected_input_schema : Object
  pub context_ref : String
  pub evidence_ref : String
  pub required_state_version : ℕ
  pub status : CheckpointStatus
  pub created_at : String
  pub resolved_at : Option String

-- A row of `task_events`.
pub record TaskEvent : Type 0 where
  pub id : ℕ
  pub task_id : String
  pub timestamp : String
  pub level : EventLevel
  pub stage : String
  pub message : String
  pub state : String
  pub state_version : ℕ
  pub payload : Object

-- The tables. Links and events stand in the order of their identifiers.
pub record TaskTables : Type 0 where
  pub tasks : List Task
  pub links : List TaskLink
  pub next_link_id : ℕ
  pub commands : List TaskCommand
  pub checkpoints : List TaskCheckpoint
  pub events : List TaskEvent
  pub next_event_id : ℕ

abbrev pub task_key : Task → String
task_key t = t.task_id

-- The unique index on the controller's request.
abbrev pub request_key : Task → String
request_key t = t.controller_request_id

abbrev pub command_key : TaskCommand → String
command_key c = c.command_id

abbrev pub checkpoint_key : TaskCheckpoint → String
checkpoint_key c = c.checkpoint_id

-- `[0-9]{8}T[0-9]{6}Z_[a-f0-9]{12}` from end to end.
is_opaque : List ℕ → Bool
unfolding every is_at is_digit is_hex nat_eq
is_opaque cs =
    length cs == 29
    && every is_digit (take 8 cs)
    && is_at 8 b'T' cs
    && every is_digit (take 6 (drop 9 cs))
    && is_at 15 b'Z' cs
    && is_at 16 b'_' cs
    && every is_hex (drop 17 cs)

is_prefix : List ℕ → List ℕ → Bool
unfolding nat_eq
is_prefix [] cs = true
is_prefix (p ∷ ps) [] = false
is_prefix (p ∷ ps) (c ∷ cs) = p == c && is_prefix ps cs

-- `TASK_ID_PATTERN.match(task_id)`
unfoldable pub is_task_id : String → Bool
unfolding codes is_opaque is_prefix without_newline
is_task_id task_id =
    let cs = without_newline (codes task_id) in
    is_prefix (codes "task_") cs && is_opaque (drop 5 cs)

is_task_id_test : is_task_id "task_20260726T010203Z_0a1b2c3d4e5f" ≡ true
unfolding is_task_id
is_task_id_test = refl

is_task_id_short : is_task_id "task_20260726T010203Z_0a1b2c3d" ≡ false
unfolding is_task_id
is_task_id_short = refl
