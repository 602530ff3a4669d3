-- ===== src/Policy/Approvals.antt =====
-- soma/policy/approval_store.py: a directory with one file for each approval request. The files are
-- listed in the order of the store.
use Prim.Native.String.{compare}
use Prim.Native.Nat.{Ordering}
use Prim.Native.Char.{code}
use codex_bridge.Prelude.{
  ℕ, String, Bool, true, false, ◌&&◌, ◌||◌, Option, none, some, List, [], ◌∷◌, ◌==◌, string_eq,
  nat_eq, if◌then◌else◌, Action, ok, raised, key_error, permission_error, length,
}
use codex_bridge.Policy.Model.{
  ApprovalRequest, ApprovalDecision, approval_status_eq, pending, approved, denied, expired,
}

abbrev pub Files : Type 0
Files = List (String × ApprovalRequest)

-- The name of the file without its suffix: both slashes are replaced.
unfoldable pub path : String → String
unfolding nat_eq
path String.[] = String.[]
path (String.◌∷◌ c s) =
    if code c == b'/' || code c == b'\\' then String.◌∷◌ "_" (path s) else String.◌∷◌ c (path s)

-- The file is written, over the one that was there.
unfoldable pub write_file : String → ApprovalRequest → Files → Files
write_file name r [] = (name, r) ∷ []
write_file name r ((known, old) ∷ rest) =
    if known == name then (known, r) ∷ rest else (known, old) ∷ write_file name r rest

unfoldable pub read_file : String → Files → Option ApprovalRequest
read_file name [] = none
read_file name ((known, r) ∷ rest) = if known == name then some r else read_file name rest

-- `ApprovalStore.create`
unfoldable pub create : ApprovalRequest → Files → Files
unfolding write_file path
create r files = write_file (path r.approval_request_id) r files

-- `ApprovalStore.get`
unfoldable pub get_approval : String → Action Files ApprovalRequest
unfolding read_file path
get_approval approval_request_id files = elim (read_file (path approval_request_id) files) [
  | none ↦ (raised key_error, files)
  | some r ↦ (ok r, files)
]

abbrev pub decided : ApprovalRequest → String → Bool → String → String → ApprovalRequest
decided r decided_by approve notes now = record r {
  status = if approve then approved else denied;
  decided_at = some now;
  decided_by = some decided_by;
  decision_notes = notes;
}

-- `ApprovalStore.record_decision`
unfoldable pub record_decision :
    String → String → Bool → String → String → Action Files ApprovalDecision
unfolding get_approval create
record_decision approval_request_id decided_by approve notes now files =
    elim (get_approval approval_request_id files).0 [
      | raised e ↦ (raised e, files)
      | ok r ↦
          if r.required_approver == "human" && decided_by == "chatgpt" && approve
          then (raised permission_error, files)
          else (
            ok (record {
              approval_request_id = approval_request_id;
              status = if approve then approved else denied;
              decided_by = decided_by;
              decided_at = now;
              decision_notes = notes;
            }),
            create (decided r decided_by approve notes now) files,
          )
    ]

not_after : String → String → Bool
not_after a b = elim (compare a b) [ Ordering.gt ↦ false | _ ↦ true ]

-- The sort by `created_at`, which keeps the order of equal times.
insert_sorted : ApprovalRequest → List ApprovalRequest → List ApprovalRequest
unfolding not_after
insert_sorted r [] = r ∷ []
insert_sorted r (s ∷ rest) =
    if not_after r.created_at s.created_at then r ∷ s ∷ rest else s ∷ insert_sorted r rest

-- `ApprovalStore.list_all`
unfoldable pub list_all : Files → List ApprovalRequest
unfolding insert_sorted
list_all [] = []
list_all ((name, r) ∷ rest) = insert_sorted r (list_all rest)

pending_of : List ApprovalRequest → List ApprovalRequest
unfolding approval_status_eq
pending_of [] = []
pending_of (r ∷ rest) = if r.status == pending then r ∷ pending_of rest else pending_of rest

-- `ApprovalStore.list_pending`
unfoldable pub list_pending : Files → List ApprovalRequest
unfolding list_all pending_of
list_pending files = pending_of (list_all files)

abbrev pub lapsed : String → ApprovalRequest → ApprovalRequest
lapsed now r = record r {
  status = expired;
  decided_at = some now;
  decision_notes = "Expired by policy store maintenance";
}

unfoldable pub expire_all : String → List ApprovalRequest → Files → Files
unfolding create
expire_all now [] files = files
expire_all now (r ∷ rest) files = expire_all now rest (create (lapsed now r) files)

-- `ApprovalStore.expire_stale`
unfoldable pub expire_stale : String → Action Files ℕ
unfolding expire_all list_pending
expire_stale now files =
    (ok (length (list_pending files)), expire_all now (list_pending files) files)
