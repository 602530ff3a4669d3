-- ===== src/Runs/RunId.antt =====
-- soma/run_store.py: `RUN_ID_PATTERN`, matched on the characters of the identifier.
use codex_bridge.Prelude.Chars.{codes, is_digit, is_hex, is_word, every, is_at, without_newline}
use codex_bridge.Prelude.{
  ℕ, ◌-◌, String, Bool, true, false, ◌&&◌, List, nat_eq, leb, length, take, drop, ◌≡◌, refl,
}

-- `[0-9]{8}T[0-9]{6}Z_` in front.
is_stamped : List ℕ → Bool
unfolding every is_at is_digit
is_stamped cs =
    every is_digit (take 8 cs)
    && is_at 8 b'T' cs
    && every is_digit (take 6 (drop 9 cs))
    && is_at 15 b'Z' cs
    && is_at 16 b'_' cs

-- `[a-z0-9_]+_[a-f0-9]{8}` from end to end.
is_named : List ℕ → Bool
unfolding every is_at is_word is_hex
is_named cs =
    let n = length cs in
    leb 10 n
    && every is_word (take (n - 9) cs)
    && is_at (n - 9) b'_' cs
    && every is_hex (drop (n - 8) cs)

-- `RUN_ID_PATTERN.match(run_id)`
unfoldable pub is_run_id : String → Bool
unfolding codes is_stamped is_named without_newline
is_run_id run_id = let cs = without_newline (codes run_id) in is_stamped cs && is_named (drop 17 cs)

is_run_id_test : is_run_id "20260726T010203Z_codex_task_0a1b2c3d" ≡ true
unfolding is_run_id
is_run_id_test = refl

is_run_id_short : is_run_id "20260726T010203Z_0a1b2c3d" ≡ false
unfolding is_run_id
is_run_id_short = refl
