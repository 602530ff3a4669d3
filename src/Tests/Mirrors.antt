-- ===== src/Tests/Mirrors.antt =====
-- The theorems of soma/tasks/models.py at concrete runs.
use codex_bridge.Prelude.{none, List, [], ◌∷◌}
use codex_bridge.Runs.Writes.{Write, recover}
use codex_bridge.Tasks.States.{task_state_eq}
use codex_bridge.Tests.Sample.{working_id}
use codex_bridge.Tests.StaleLocks.{finished}

-- A late recovery of the run that has ended.
abbrev late_recovery : List Write
late_recovery = recover working_id "lost" none none none none none finished ∷ []
