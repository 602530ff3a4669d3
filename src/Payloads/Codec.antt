-- ===== src/Payloads/Codec.antt =====
-- soma/payload_chunks.py: a payload is described and split, and put together again. The bytes are
-- numbers; the hash is the argument `sha256`. A descriptor holds what the code reads of the JSON
-- object: a text that is missing is empty, a size that is missing is `none`, and chunks that are
-- missing, or no list, are the empty list.
use codex_bridge.Prelude.{
  ℕ, zero, suc, ◌*◌, String, not, ◌||◌, Option, none, some, List, [], ◌∷◌, ◌++◌, ◌==◌, string_eq,
  nat_eq, option_eq, leb, length, take, drop, if◌then◌else◌, Result, ok, raised, value_error,
}
use codex_bridge.Payloads.Names.{payload_file_name, payload_chunk_file_name}

abbrev pub Bytes : Type 0
Bytes = List ℕ

abbrev pub payload_chunk_bytes : ℕ
payload_chunk_bytes = 256 * 1024

pub record Chunk : Type 0 where
  pub file : String
  pub sha256 : String
  pub size_bytes : Option ℕ

-- An item of `payload_chunks`.
pub data Entry : Type 0 where
  described : Chunk → Entry
  not_a_dict : Entry

pub record Descriptor : Type 0 where
  pub payload_file : String
  pub payload_chunks : List Entry
  pub payload_sha256 : String
  pub payload_size_bytes : Option ℕ

pub record Part : Type 0 where
  pub name : String
  pub bytes : Bytes

-- The slices at the offsets `range(0, len(data), limit)`; the fuel is the length.
unfoldable pub pieces : ℕ → ℕ → Bytes → List Bytes
pieces limit zero payload = []
pieces limit (suc fuel) [] = []
pieces limit (suc fuel) (b ∷ bs) = take limit (b ∷ bs) ∷ pieces limit fuel (drop limit (b ∷ bs))

unfoldable pub parts_of : ℕ → ℕ → List Bytes → List Part
parts_of index i [] = []
parts_of index i (chunk ∷ rest) =
    record { name = payload_chunk_file_name index i; bytes = chunk } ∷ parts_of index (suc i) rest

module _ (sha256 : Bytes → String) where
  unfoldable pub chunks_of : ℕ → ℕ → List Bytes → List Entry
  chunks_of index i [] = []
  chunks_of index i (chunk ∷ rest) =
      described (record {
        file = payload_chunk_file_name index i;
        sha256 = sha256 chunk;
        size_bytes = some (length chunk);
      })
      ∷ chunks_of index (suc i) rest

  -- The descriptor and the parts, for payloads up to `limit` in one file.
  unfoldable pub build_parts : ℕ → ℕ → Bytes → Descriptor × List Part
  unfolding chunks_of parts_of pieces
  build_parts limit index payload =
      if leb (length payload) limit
      then (
        record {
          payload_file = payload_file_name index;
          payload_chunks = [];
          payload_sha256 = sha256 payload;
          payload_size_bytes = some (length payload);
        },
        record { name = payload_file_name index; bytes = payload } ∷ [],
      )
      else let chunks = pieces limit (length payload) payload in
        (
          record {
            payload_file = "";
            payload_chunks = chunks_of index 0 chunks;
            payload_sha256 = sha256 payload;
            payload_size_bytes = some (length payload);
          },
          parts_of index 0 chunks,
        )

  -- `build_payload_parts`
  unfoldable pub build_payload_parts : ℕ → Bytes → Descriptor × List Part
  unfolding build_parts
  build_payload_parts index payload = build_parts payload_chunk_bytes index payload

  -- The checks of the whole payload.
  unfoldable pub check_payload : Descriptor → Bytes → Result Bytes
  check_payload d payload =
      if d.payload_sha256 == "" || not (sha256 payload == d.payload_sha256)
      then raised value_error
      else elim d.payload_size_bytes [
        | none ↦ ok payload
        | some n ↦ if not (length payload == n) then raised value_error else ok payload
      ]

  module _ (read_file : String → String → Result Bytes) where
    -- The loop over the chunks, with the output so far.
    unfoldable pub read_chunks : ℕ → ℕ → List Entry → Bytes → Result Bytes
    read_chunks index i [] output = ok output
    read_chunks index i (not_a_dict ∷ rest) output = raised value_error
    read_chunks index i (described chunk ∷ rest) output =
        let expected_name = payload_chunk_file_name index i in
        if not (chunk.file == expected_name)
        then raised value_error
        else elim (read_file chunk.file expected_name) [
          | raised e ↦ raised e
          | ok payload ↦
              let next = read_chunks index (suc i) rest (output ++ payload) in
              if not (chunk.size_bytes == some (length payload))
              then raised value_error
              else if not (sha256 payload == chunk.sha256)
              then raised value_error
              else next
        ]

    unfoldable pub read_one : ℕ → String → Result Bytes
    read_one index filename =
        if filename == ""
        then raised value_error
        else if not (filename == payload_file_name index)
        then raised value_error
        else read_file filename (payload_file_name index)

    unfoldable pub read_payload : ℕ → Descriptor → Result Bytes
    unfolding read_chunks read_one
    read_payload index d = elim d.payload_chunks [
      | [] ↦ read_one index d.payload_file
      | c ∷ rest ↦ read_chunks index 0 (c ∷ rest) []
    ]

    -- `assemble_payload`
    unfoldable pub assemble_payload : ℕ → Descriptor → Result Bytes
    unfolding read_payload check_payload
    assemble_payload index d = elim (read_payload index d) [
      | raised e ↦ raised e
      | ok payload ↦ check_payload d payload
    ]
