-- ===== src/Locks/Processes.antt =====
-- soma/process_control.py: live processes and their start identity. The operating system answers
-- which process numbers are alive and when each was started.
use codex_bridge.Prelude.{ℕ, String, Bool, not, ◌&&◌, ◌==◌, string_eq, ltb, if◌then◌else◌}

pub record System : Type 0 where
  pub is_alive : ℕ → Bool
  pub start_identity : ℕ → String

-- `process_is_running`
unfoldable pub process_is_running : System → ℕ → Bool
process_is_running os pid = ltb 0 pid && os.is_alive pid

-- `process_identity`
unfoldable pub process_identity : System → ℕ → String
process_identity os pid = if process_is_running os pid then os.start_identity pid else ""

-- `process_matches_identity`
unfoldable pub process_matches_identity : System → ℕ → String → Bool
process_matches_identity os pid expected =
    not (expected == "") && process_identity os pid == expected
