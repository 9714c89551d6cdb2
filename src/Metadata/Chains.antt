-- ===== src/Metadata/Chains.antt =====
-- The version chain of one record id: its shape, and what each call makes of it.
use fssvrcpp.Domain.{FileMetadataRecord}
use fssvrcpp.Errors.{ok, err, is_ok, not_found}
use fssvrcpp.Metadata.Claiming.{mark_in, release_in}
use fssvrcpp.Metadata.Records.{visible, not_latest, next_version}
use fssvrcpp.Metadata.Types.{claiming, ready, Version}
use fssvrcpp.Prelude.{
  ℕ, ◌+◌, ◌≤◌, true, false, List, [], ◌∷◌, ◌++◌, map, Option, none, some, get_last?, ◌≡◌, refl,
  arith, ◌⊎◌, inl, inr,
}
use fssvrcpp.Prelude.Bytes.{Bytes, bytes_eqb_iff}
use fssvrcpp.Prelude.Int.{ℤ, pos, ◌+ℤ◌, eqb_ℤ_iff}

module _ {R : Type 0} where
  -- Version number `k` of the record `id` with file source `src`.
  abbrev pub IsVersion : Bytes → Bytes → ℕ → Version R → Type 0
  IsVersion id src k v =
      (v.content.id ≡ id) × (v.content.file_source ≡ src) × (v.content.version ≡ pos k)

  -- Versions count up from `k`; the last alone is flagged as the latest; all are ready, but that
  -- version 1 may be claiming while it stands alone.
  abbrev pub IsChain : Bytes → Bytes → ℕ → List (Version R) → Type 0
  IsChain id src k [] = ⊥
  IsChain id src k (v ∷ []) =
      IsVersion id src k v
      × (v.is_latest ≡ true)
      × ((v.state ≡ ready) ⊎ ((v.state ≡ claiming) × (k ≡ 1)))
  IsChain id src k (v ∷ w ∷ vs) =
      IsVersion id src k v
      × (v.is_latest ≡ false)
      × (v.state ≡ ready)
      × IsChain id src (k + 1) (w ∷ vs)

  -- The file source of a chain that may be there.
  abbrev pub source_at : Option (List (Version R)) → Option Bytes
  source_at none = none
  source_at (some []) = none
  source_at (some (v ∷ vs)) = some v.content.file_source

  pub source_at-IsChain :
      (id src : Bytes) (k : ℕ) (c : List (Version R))
      → IsChain id src k c
      → source_at (some c) ≡ some src
  source_at-IsChain id src k [] h = absurd h
  source_at-IsChain id src k (v ∷ []) h = ground arith
  source_at-IsChain id src k (v ∷ w ∷ vs) h = ground arith

  -- The latest version of a chain; one that is claiming is the whole chain.
  pub IsChain-last :
      (id src : Bytes) (k : ℕ) (c : List (Version R))
      → 1 ≤ k
      → IsChain id src k c
      → (v : Version R) × (get_last? c ≡ some v)
        × (v.content.id ≡ id)
        × (v.content.file_source ≡ src)
        × (v.is_latest ≡ true)
        × ((v.state ≡ ready) ⊎ ((v.state ≡ claiming) × (k ≡ 1) × (c ≡ v ∷ [])))
  unfolding get_last?
  IsChain-last id src k [] pk h = absurd h
  IsChain-last id src k (v ∷ []) pk h =
      (v, refl, h.0.0, h.0.1, h.1, elim h.2 [ inl r ↦ inl r | inr (c, e) ↦ inr (c, e, refl) ])
  IsChain-last id src k (v ∷ w ∷ vs) pk h =
      let (x, last, same, source, latest, state) =
        IsChain-last id src (k + 1) (w ∷ vs) (omega arith) h.3 in
      (
        x,
        last,
        same,
        source,
        latest,
        elim state [ inl r ↦ inl r | inr (c, e, l) ↦ absurd (omega arith) ],
      )

  -- From version 2 on nothing is claiming, so the loops find nothing.
  mark_in_later :
      (id src : Bytes) (k : ℕ) (version : ℤ) (r : FileMetadataRecord R) (c : List (Version R))
      → 2 ≤ k
      → IsChain id src k c
      → is_ok (mark_in id version r c) ≡ false
  unfolding mark_in
  mark_in_later id src k version r [] pk h = absurd h
  mark_in_later id src k version r (v ∷ []) pk h = ground arith
  mark_in_later id src k version r (v ∷ w ∷ vs) pk h =
      let later : 2 ≤ k + 1 = omega arith in
      ground (arith, mark_in_later id src (k + 1) version r (w ∷ vs) later h.3)

  release_in_later :
      (id src : Bytes) (k : ℕ) (version : ℤ) (c : List (Version R))
      → 2 ≤ k
      → IsChain id src k c
      → is_ok (release_in version c) ≡ false
  unfolding release_in
  release_in_later id src k version [] pk h = absurd h
  release_in_later id src k version (v ∷ []) pk h = ground arith
  release_in_later id src k version (v ∷ w ∷ vs) pk h =
      let later : 2 ≤ k + 1 = omega arith in
      ground (arith, release_in_later id src (k + 1) version (w ∷ vs) later h.3)

  abbrev pub final : Bytes → ℤ → FileMetadataRecord R → FileMetadataRecord R
  final id version r = record r { id = id; version = version }

  abbrev pub marked : FileMetadataRecord R → Version R → Version R
  marked x v = record v { content = x; state = ready }

  -- A version that `MarkReady` finds is the whole chain; it gets the record with its id and number.
  pub mark_in-IsChain :
      (id src : Bytes) (version : ℤ) (r x : FileMetadataRecord R) (c c' : List (Version R))
      → IsChain id src 1 c
      → mark_in id version r c ≡ ok (x, c')
      → IsChain id src 1 c' × (x ≡ final id version r) × (r.file_source ≡ src)
  unfolding mark_in
  mark_in-IsChain id src version r x [] c' h e = absurd h
  mark_in-IsChain id src version r x (v ∷ []) c' h e = ground (
    arith,
    eqb_ℤ_iff v.content.version version,
    bytes_eqb_iff v.content.file_source r.file_source,
  )
  mark_in-IsChain id src version r x (v ∷ w ∷ vs) c' h e =
      let two : 2 ≤ 2 = omega arith in
      absurd (ground (arith, e, mark_in_later id src 2 version r (w ∷ vs) two h.3))

  -- `ReleaseClaim` drops a version only if it is the whole chain.
  pub release_in-IsChain :
      (id src s : Bytes) (version : ℤ) (c c' : List (Version R))
      → IsChain id src 1 c
      → release_in version c ≡ ok (s, c')
      → (s ≡ src) × (c' ≡ [])
  unfolding release_in
  release_in-IsChain id src s version [] c' h e = absurd h
  release_in-IsChain id src s version (v ∷ []) c' h e = ground arith
  release_in-IsChain id src s version (v ∷ w ∷ vs) c' h e =
      let two : 2 ≤ 2 = omega arith in
      absurd (ground (arith, e, release_in_later id src 2 version (w ∷ vs) two h.3))

  -- What `ReleaseClaim` drops was hidden from the reads.
  pub release_in-visible :
      (id src s : Bytes) (version : ℤ) (c c' : List (Version R))
      → IsChain id src 1 c
      → release_in version c ≡ ok (s, c')
      → visible (get_last? c) ≡ err not_found
  unfolding release_in get_last?
  release_in-visible id src s version [] c' h e = absurd h
  release_in-visible id src s version (v ∷ []) c' h e = ground arith
  release_in-visible id src s version (v ∷ w ∷ vs) c' h e =
      let two : 2 ≤ 2 = omega arith in
      absurd (ground (arith, e, release_in_later id src 2 version (w ∷ vs) two h.3))

  -- `Update` of a chain whose latest version is ready appends the next version.
  pub next_version-IsChain :
      (id src : Bytes) (k : ℕ) (now : ℤ) (r : FileMetadataRecord R) (v : Version R)
      (c : List (Version R))
      → 1 ≤ k
      → IsChain id src k c
      → get_last? c ≡ some v
      → v.state ≡ ready
      → r.id ≡ id
      → r.file_source ≡ src
      → IsChain id src k (map not_latest c ++ (next_version now r v ∷ []))
  unfolding get_last? ◌+ℤ◌
  next_version-IsChain id src k now r v [] pk h last y a b = absurd h
  next_version-IsChain id src k now r v (x ∷ []) pk h last y a b = ground arith
  next_version-IsChain id src k now r v (x ∷ w ∷ vs) pk h last y a b =
      ground
        (arith, next_version-IsChain id src (k + 1) now r v (w ∷ vs) (omega arith) h.3 last y a b)
