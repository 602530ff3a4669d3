-- ===== src/Payloads/Integrity.antt =====
-- soma/payload_chunks.py: what a payload that was assembled is.
use mathlib.Core.List.{append-nil, append_assoc}
use codex_bridge.Prelude.{
  sym, ap, ◌∙◌, Error, ℕ, String, ◌≡◌, ◌≢◌, refl, some, List, [], ◌∷◌, ◌++◌, string_eq, nat_eq,
  option_eq, suc, length, Result, ok, raised, arith, ◌⊎◌, inl, inr,
}
use codex_bridge.Payloads.Names.{payload_chunk_file_name}
use codex_bridge.Payloads.Codec.{
  Bytes, Chunk, Entry, described, not_a_dict, Descriptor, read_chunks, read_payload, check_payload,
  assemble_payload,
}

module _ (sha256 : Bytes → String) (read_file : String → String → Result Bytes) where
  -- Each chunk is described, and its bytes are read with the size and the hash that it tells.
  abbrev pub Read : ℕ → ℕ → List Entry → Bytes → Type 0
  Read index i [] payload = payload ≡ []
  Read index i (not_a_dict ∷ rest) payload = ⊥
  Read index i (described chunk ∷ rest) payload =
      (first : Bytes) × (last : Bytes) × (payload ≡ first ++ last)
      × (chunk.file ≡ payload_chunk_file_name index i)
      × (read_file chunk.file chunk.file ≡ ok first)
      × (chunk.size_bytes ≡ some (length first))
      × (sha256 first ≡ chunk.sha256)
      × Read index (suc i) rest last

  check_payload-ok :
      (d : Descriptor) (payload result : Bytes)
      → check_payload sha256 d payload ≡ ok result
      → (result ≡ payload)
        × (sha256 payload ≡ d.payload_sha256)
        × ((n : ℕ) → d.payload_size_bytes ≡ some n → length payload ≡ n)
  unfolding check_payload
  check_payload-ok d payload result h = ground arith

  read-cases :
      (r : Result Bytes) → ((bytes : Bytes) × (r ≡ ok bytes)) ⊎ ((e : Error) × (r ≡ raised e))
  read-cases (ok bytes) = inl (bytes, refl)
  read-cases (raised e) = inr (e, refl)

  step-ok :
      (index i : ℕ) (chunk : Chunk) (rest : List Entry) (output payload first : Bytes)
      → read_file chunk.file (payload_chunk_file_name index i) ≡ ok first
      → read_chunks sha256 read_file index i (described chunk ∷ rest) output ≡ ok payload
      → (chunk.file ≡ payload_chunk_file_name index i)
        × (chunk.size_bytes ≡ some (length first))
        × (sha256 first ≡ chunk.sha256)
        × (read_chunks sha256 read_file index (suc i) rest (output ++ first) ≡ ok payload)
  unfolding read_chunks
  step-ok index i chunk rest output payload first r h = ground arith

  step-raised :
      (index i : ℕ) (chunk : Chunk) (rest : List Entry) (output payload : Bytes) (e : Error)
      → read_file chunk.file (payload_chunk_file_name index i) ≡ raised e
      → read_chunks sha256 read_file index i (described chunk ∷ rest) output ≢ ok payload
  unfolding read_chunks
  step-raised index i chunk rest output payload e r h = ground arith

  done-ok :
      (index i : ℕ) (output payload : Bytes)
      → read_chunks sha256 read_file index i [] output ≡ ok payload
      → payload ≡ output
  unfolding read_chunks
  done-ok index i output payload h = ground arith

  bad-ok :
      (index i : ℕ) (rest : List Entry) (output payload : Bytes)
      → read_chunks sha256 read_file index i (not_a_dict ∷ rest) output ≢ ok payload
  unfolding read_chunks
  bad-ok index i rest output payload h = ground arith

  read_chunks-ok :
      (index i : ℕ) (entries : List Entry) (output payload : Bytes)
      → read_chunks sha256 read_file index i entries output ≡ ok payload
      → (rest : Bytes) × (payload ≡ output ++ rest) × Read index i entries rest
  read_chunks-ok index i [] output payload h =
      ([], done-ok index i output payload h ∙ sym (append-nil output), refl)
  read_chunks-ok index i (not_a_dict ∷ rest) output payload h =
      absurd (bad-ok index i rest output payload h)
  read_chunks-ok index i (described chunk ∷ rest) output payload h =
      elim (read-cases (read_file chunk.file (payload_chunk_file_name index i))) [
        | inr p ↦ absurd (step-raised index i chunk rest output payload p.0 p.1 h)
        | inl p ↦
            let s = step-ok index i chunk rest output payload p.0 p.1 h in
            let next = read_chunks-ok index (suc i) rest (output ++ p.0) payload s.3 in
            (
              p.0 ++ next.0,
              next.1 ∙ append_assoc output p.0 next.0,
              (p.0, next.0, refl, s.0, ap (read_file chunk.file) s.0 ∙ p.1, s.1, s.2, next.2),
            )
      ]

  assemble-steps :
      (index : ℕ) (d : Descriptor) (payload : Bytes)
      → assemble_payload sha256 read_file index d ≡ ok payload
      → (read_payload sha256 read_file index d ≡ ok payload)
        × (check_payload sha256 d payload ≡ ok payload)
  unfolding assemble_payload
  assemble-steps index d payload h = elim (read-cases (read_payload sha256 read_file index d)) [
    | inr p ↦ absurd (ground arith)
    | inl p ↦ ground (arith, check_payload-ok d p.0 payload)
  ]

  read_payload-ok :
      (index : ℕ) (d : Descriptor) (payload : Bytes)
      → read_payload sha256 read_file index d ≡ ok payload
      → d.payload_chunks ≢ []
      → read_chunks sha256 read_file index 0 d.payload_chunks [] ≡ ok payload
  unfolding read_payload
  read_payload-ok index d payload h chunked = ground arith

  -- A payload that was assembled has the hash and the size that the descriptor tells, and where
  -- the descriptor has chunks it is made of the bytes of each of them, read under the name of its
  -- place, with the size and the hash that the chunk tells.
  pub assemble_payload-ok :
      (index : ℕ) (d : Descriptor) (payload : Bytes)
      → assemble_payload sha256 read_file index d ≡ ok payload
      → (sha256 payload ≡ d.payload_sha256)
        × ((n : ℕ) → d.payload_size_bytes ≡ some n → length payload ≡ n)
        × (d.payload_chunks ≢ [] → Read index 0 d.payload_chunks payload)
  assemble_payload-ok index d payload h =
      let steps = assemble-steps index d payload h in
      let checked = check_payload-ok d payload payload steps.1 in
      (
        checked.1,
        checked.2,
        λ chunked.
            let r =
              read_chunks-ok index 0 d.payload_chunks [] payload
                (read_payload-ok index d payload steps.0 chunked) in
            rw r.1 r.2,
      )
