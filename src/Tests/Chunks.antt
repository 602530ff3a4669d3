-- ===== src/Tests/Chunks.antt =====
-- The theorems of soma/payload_chunks.py at concrete payloads.
use codex_bridge.Prelude.{
  ℕ, String, ◌≡◌, ◌≢◌, refl, some, [], ◌∷◌, length, string_eq, nat_eq, option_eq, Result, ok,
  raised, value_error, arith,
}
use text.Mathlib.TextEquality.{eq_iff}
use codex_bridge.Payloads.Names.{payload_chunk_file_name}
use codex_bridge.Payloads.Codec.{
  Bytes, Descriptor, described, build_parts, build_payload_parts, assemble_payload,
  payload_chunk_bytes,
}
use codex_bridge.Payloads.RoundTrip.{
  Stored, Bounded, contents, join, assemble-build_payload_parts, build_payload_parts_lem,
}
use codex_bridge.Payloads.Integrity.{Read, assemble_payload-ok}

-- A text for every payload.
abbrev hash : Bytes → String
hash [] = "none"
hash (b ∷ bs) = "some"

abbrev two_bytes : Bytes
two_bytes = 1 ∷ 2 ∷ []

abbrev stored_two : String → String → Result Bytes
stored_two name expected = ok two_bytes

hash-nonempty : hash two_bytes ≢ ""
hash-nonempty = ground (arith, eq_iff "some" "")

stored : Stored stored_two (build_payload_parts hash 3 two_bytes).1
unfolding build_payload_parts
stored = (refl, tt)

assemble-build_payload_parts_example :
    assemble_payload hash stored_two 3 (build_payload_parts hash 3 two_bytes).0 ≡ ok two_bytes
assemble-build_payload_parts_example =
    assemble-build_payload_parts hash stored_two 3 two_bytes hash-nonempty stored

build_payload_parts_example :
    Bounded payload_chunk_bytes (build_payload_parts hash 3 two_bytes).1
    × (join (contents (build_payload_parts hash 3 two_bytes).1) ≡ two_bytes)
build_payload_parts_example = build_payload_parts_lem hash 3 two_bytes

-- Two chunks, described by hand.
abbrev two_chunks : Descriptor
two_chunks = record {
  payload_file = "";
  payload_chunks =
      described (record { file = "payload_3.part_0000.bin"; sha256 = "some"; size_bytes = some 2 })
      ∷ described
          (record { file = "payload_3.part_0001.bin"; sha256 = "some"; size_bytes = some 2 })
      ∷ [];
  payload_sha256 = "some";
  payload_size_bytes = some 4;
}

abbrev four_bytes : Bytes
four_bytes = 1 ∷ 2 ∷ 1 ∷ 2 ∷ []

two_chunks_read : assemble_payload hash stored_two 3 two_chunks ≡ ok four_bytes
unfolding assemble_payload payload_chunk_file_name string_eq nat_eq option_eq
two_chunks_read = refl

assemble_payload_example :
    (hash four_bytes ≡ two_chunks.payload_sha256)
    × ((n : ℕ) → two_chunks.payload_size_bytes ≡ some n → length four_bytes ≡ n)
    × (two_chunks.payload_chunks ≢ []
        → Read hash stored_two 3 0 two_chunks.payload_chunks four_bytes)
assemble_payload_example =
    assemble_payload-ok hash stored_two 3 two_chunks four_bytes two_chunks_read

-- Chunks out of order are refused.
abbrev swapped_chunks : Descriptor
swapped_chunks = record two_chunks {
  payload_chunks =
      described (record { file = "payload_3.part_0001.bin"; sha256 = "some"; size_bytes = some 2 })
      ∷ [];
}

swapped_chunks_refused : assemble_payload hash stored_two 3 swapped_chunks ≡ raised value_error
unfolding assemble_payload payload_chunk_file_name string_eq nat_eq option_eq
swapped_chunks_refused = refl

-- Five bytes in parts of two.
three_parts :
    contents (build_parts hash 2 0 (1 ∷ 2 ∷ 3 ∷ 4 ∷ 5 ∷ [])).1
    ≡ (1 ∷ 2 ∷ []) ∷ (3 ∷ 4 ∷ []) ∷ (5 ∷ []) ∷ []
unfolding build_parts
three_parts = refl
