-- ===== src/Payloads/RoundTrip.antt =====
-- soma/payload_chunks.py: the parts of a payload give the payload back.
use mathlib.Core.List.{append-nil, append_assoc}
use codex_bridge.Prelude.{
  ℕ, zero, suc, ◌≤◌, ◌<◌, String, ◌≡◌, ◌≢◌, refl, ◌∙◌, ap, some, List, [], ◌∷◌, ◌++◌, string_eq,
  nat_eq, option_eq, length, take, drop, take-append-drop, length-drop, length-take, All, leb,
  Result, ok, arith, Bool-cases, inl, inr,
}
use codex_bridge.Payloads.Names.{payload_file_name-nonempty}
use codex_bridge.Payloads.Codec.{
  Bytes, Descriptor, Part, pieces, parts_of, chunks_of, build_parts, build_payload_parts,
  payload_chunk_bytes, read_chunks, read_one, read_payload, check_payload, assemble_payload,
}

-- The chunks put together.
abbrev pub join : List Bytes → Bytes
join [] = []
join (chunk ∷ rest) = chunk ++ join rest

-- The pieces are the data, where the fuel is enough.
pub join-pieces :
    (limit fuel : ℕ) (payload : Bytes)
    → 0 < limit
    → length payload ≤ fuel
    → join (pieces limit fuel payload) ≡ payload
unfolding pieces
join-pieces limit zero [] pos enough = refl
join-pieces limit zero (b ∷ bs) pos enough = absurd (omega (arith, enough))
join-pieces limit (suc fuel) [] pos enough = refl
join-pieces limit (suc fuel) (b ∷ bs) pos enough =
    ap (λ rest. take limit (b ∷ bs) ++ rest)
      (join-pieces limit fuel (drop limit (b ∷ bs)) pos
        (omega (arith, length-drop limit (b ∷ bs), enough)))
    ∙ take-append-drop limit (b ∷ bs)

pieces-bounded :
    (limit fuel : ℕ) (payload : Bytes)
    → All (λ chunk. length chunk ≤ limit) (pieces limit fuel payload)
unfolding pieces
pieces-bounded limit zero payload = tt
pieces-bounded limit (suc fuel) [] = tt
pieces-bounded limit (suc fuel) (b ∷ bs) =
    (omega (arith, length-take limit (b ∷ bs)), pieces-bounded limit fuel (drop limit (b ∷ bs)))

-- Each part can be read under its name.
abbrev pub Stored : (String → String → Result Bytes) → List Part → Type 0
Stored read_file parts = All (λ p. read_file p.name p.name ≡ ok p.bytes) parts

module _ (sha256 : Bytes → String) (read_file : String → String → Result Bytes) where
  read_chunks_lem :
      (index i : ℕ) (chunks : List Bytes) (output : Bytes)
      → Stored read_file (parts_of index i chunks)
      → read_chunks sha256 read_file index i (chunks_of sha256 index i chunks) output
        ≡ ok (output ++ join chunks)
  unfolding read_chunks chunks_of parts_of
  read_chunks_lem index i [] output stored = rw (append-nil output)
  read_chunks_lem index i (chunk ∷ rest) output stored = ground (
    arith,
    read_chunks_lem index (suc i) rest (output ++ chunk) stored.1,
    append_assoc output chunk (join rest),
  )

  check_payload_lem :
      (d : Descriptor) (payload : Bytes)
      → d.payload_sha256 ≡ sha256 payload
      → sha256 payload ≢ ""
      → d.payload_size_bytes ≡ some (length payload)
      → check_payload sha256 d payload ≡ ok payload
  unfolding check_payload
  check_payload_lem d payload hashed nonempty sized = ground arith

  pieces-nonempty :
      (limit fuel : ℕ) (payload : Bytes)
      → limit < length payload
      → length payload ≤ fuel
      → (chunk : Bytes) × (rest : List Bytes) × (pieces limit fuel payload ≡ chunk ∷ rest)
  unfolding pieces
  pieces-nonempty limit fuel [] long enough = absurd (omega (arith, long))
  pieces-nonempty limit zero (b ∷ bs) long enough = absurd (omega (arith, enough))
  pieces-nonempty limit (suc fuel) (b ∷ bs) long enough = (_, _, refl)

  read_chunks_of :
      (index : ℕ) (d : Descriptor) (chunks : List Bytes) (chunk : Bytes) (rest : List Bytes)
      → chunks ≡ chunk ∷ rest
      → d.payload_chunks ≡ chunks_of sha256 index 0 chunks
      → Stored read_file (parts_of index 0 chunks)
      → read_payload sha256 read_file index d ≡ ok (join chunks)
  unfolding read_payload chunks_of
  read_chunks_of index d chunks chunk rest e f stored =
      ground (arith, read_chunks_lem index 0 chunks [] stored)

  -- A payload is put together again from its parts.
  pub assemble-build_parts :
      (limit index : ℕ) (payload : Bytes)
      → 0 < limit
      → sha256 payload ≢ ""
      → Stored read_file (build_parts sha256 limit index payload).1
      → assemble_payload sha256 read_file index (build_parts sha256 limit index payload).0
        ≡ ok payload
  unfolding assemble_payload build_parts read_payload read_one
  assemble-build_parts limit index payload pos nonempty stored =
      elim (Bool-cases (leb (length payload) limit)) [
        | inl short ↦ ground (
          arith,
          payload_file_name-nonempty index,
          check_payload_lem (build_parts sha256 limit index payload).0 payload,
        )
        | inr long ↦
            let chunks = pieces limit (length payload) payload in
            let p =
              pieces-nonempty limit (length payload) payload (ground (arith, long)) (omega arith) in
            ground (
              arith,
              read_chunks_of index (build_parts sha256 limit index payload).0 chunks p.0 p.1 p.2,
              join-pieces limit (length payload) payload pos (omega arith),
              check_payload_lem (build_parts sha256 limit index payload).0 payload,
            )
      ]

-- The parts of a payload, read under their names, are put together to the payload, for every hash
-- whose text for it is not empty.
pub assemble-build_payload_parts :
    (sha256 : Bytes → String) (read_file : String → String → Result Bytes) (index : ℕ)
    (payload : Bytes)
    → sha256 payload ≢ ""
    → Stored read_file (build_payload_parts sha256 index payload).1
    → assemble_payload sha256 read_file index (build_payload_parts sha256 index payload).0
      ≡ ok payload
unfolding build_payload_parts
assemble-build_payload_parts sha256 read_file index payload nonempty stored =
    assemble-build_parts sha256 read_file payload_chunk_bytes index payload (omega arith) nonempty
      stored

abbrev pub Bounded : ℕ → List Part → Type 0
Bounded limit parts = All (λ p. length p.bytes ≤ limit) parts

abbrev pub contents : List Part → List Bytes
contents [] = []
contents (p ∷ rest) = p.bytes ∷ contents rest

parts_of-Bounded :
    (limit index i : ℕ) (chunks : List Bytes)
    → All (λ chunk. length chunk ≤ limit) chunks
    → Bounded limit (parts_of index i chunks)
unfolding parts_of
parts_of-Bounded limit index i [] bounded = tt
parts_of-Bounded limit index i (chunk ∷ rest) bounded =
    (bounded.0, parts_of-Bounded limit index (suc i) rest bounded.1)

contents-parts_of :
    (index i : ℕ) (chunks : List Bytes) → contents (parts_of index i chunks) ≡ chunks
unfolding parts_of
contents-parts_of index i [] = refl
contents-parts_of index i (chunk ∷ rest) = rw (contents-parts_of index (suc i) rest)

build_parts_lem :
    (sha256 : Bytes → String) (limit index : ℕ) (payload : Bytes)
    → 0 < limit
    → Bounded limit (build_parts sha256 limit index payload).1
      × (join (contents (build_parts sha256 limit index payload).1) ≡ payload)
unfolding build_parts
build_parts_lem sha256 limit index payload pos = elim (Bool-cases (leb (length payload) limit)) [
  | inl short ↦ rw short ((ground (arith, short), tt), append-nil payload)
  | inr long ↦ rw long (
    parts_of-Bounded limit index 0 _ (pieces-bounded limit (length payload) payload),
    ap join (contents-parts_of index 0 (pieces limit (length payload) payload))
        ∙ join-pieces limit (length payload) payload pos (omega arith),
  )
]

-- No part of a payload is larger than a chunk, and the parts in order are the payload.
pub build_payload_parts_lem :
    (sha256 : Bytes → String) (index : ℕ) (payload : Bytes)
    → Bounded payload_chunk_bytes (build_payload_parts sha256 index payload).1
      × (join (contents (build_payload_parts sha256 index payload).1) ≡ payload)
unfolding build_payload_parts
build_payload_parts_lem sha256 index payload =
    build_parts_lem sha256 payload_chunk_bytes index payload (omega arith)
