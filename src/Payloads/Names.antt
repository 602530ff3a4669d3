-- ===== src/Payloads/Names.antt =====
-- soma/payload_chunks.py: the names of the files of a payload.
use Prim.Native.String.{◌++◌}
use text.Mathlib.TextLemmas.{append-eq-nil_iff}
use text.Mathlib.TextEquality.{eq_iff}
use codex_bridge.Prelude.{
  ℕ, zero, suc, ◌/◌, ◌%◌, String, [], ◌∷◌, drop, ltb, if◌then◌else◌, ◌≡◌, ◌≢◌, refl, arith,
}

digit : ℕ → String
digit n =
    elim (drop {A = String} n ("0" ∷ "1" ∷ "2" ∷ "3" ∷ "4" ∷ "5" ∷ "6" ∷ "7" ∷ "8" ∷ "9" ∷ [])) [
      | [] ↦ ""
      | d ∷ _ ↦ d
    ]

-- The digits of a number, at most as many as the fuel.
digits : ℕ → ℕ → String
unfolding digit
digits zero n = ""
digits (suc fuel) n =
    let before = digits fuel (n / 10) in if ltb n 10 then digit n else before ++ digit (n % 10)

-- `str` of a number: it has at most one digit more than its value.
unfoldable pub show : ℕ → String
unfolding digits
show n = digits (suc n) n

-- `{n:04d}`
padded : ℕ → String
unfolding show
padded n =
    if ltb n 10
    then "000" ++ show n
    else if ltb n 100
    then "00" ++ show n
    else if ltb n 1000
    then "0" ++ show n
    else show n

-- `payload_file_name`
unfoldable pub payload_file_name : ℕ → String
unfolding show
payload_file_name index = "payload_" ++ show index ++ ".bin"

-- `payload_chunk_file_name`
unfoldable pub payload_chunk_file_name : ℕ → ℕ → String
unfolding show padded
payload_chunk_file_name index chunk_index =
    "payload_" ++ show index ++ ".part_" ++ padded chunk_index ++ ".bin"

payload_chunk_file_name_test : payload_chunk_file_name 12 34 ≡ "payload_12.part_0034.bin"
unfolding payload_chunk_file_name
payload_chunk_file_name_test = refl

literal-nonempty : ◌≢◌ {A = String} "payload_" ""
literal-nonempty = ground (arith, eq_iff "payload_" "")

pub payload_file_name-nonempty : (index : ℕ) → payload_file_name index ≢ ""
unfolding payload_file_name
payload_file_name-nonempty index empty = literal-nonempty (append-eq-nil_iff.0 empty).0
