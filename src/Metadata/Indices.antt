-- ===== src/Metadata/Indices.antt =====
-- The metadata repository stays consistent, whatever is called.
use fssvrcpp.Metadata.Chains.{IsChain, source_at, source_at-IsChain}
use fssvrcpp.Metadata.Types.{Version, Metadata}
use fssvrcpp.Prelude.{true, ◌&&◌, List, none, some, ◌≡◌, sym, ◌∙◌, arith, inl, inr, Bool-cases}
use fssvrcpp.Prelude.Bytes.{Bytes, bytes_eqb, bytes_eqb_iff}
use fssvrcpp.Prelude.Dict.{
  bytes_key, pair_key, lookup, insert, remove, lookup_in, insert_in, remove_in, touch,
  lookup-insert, lookup-remove, lookup_in-insert_in, lookup_in-remove_in, lookup_in-touch,
}

same_keys : (p p' i i' : Bytes) → bytes_eqb p' p && bytes_eqb i' i ≡ true → (p' ≡ p) × (i' ≡ i)
same_keys p p' i i' h = ground (arith, bytes_eqb_iff p' p, bytes_eqb_iff i' i)

module _ {R : Type 0} where
  -- A chain of the id, and the index leads from its file source to the id.
  abbrev pub IsOwn : List ((Bytes × Bytes) × Bytes) → Bytes → Bytes → List (Version R) → Type 0
  IsOwn index p i c = (src : Bytes) × IsChain i src 1 c × (lookup (p, src) index ≡ some i)

  -- Every chain is well formed under its id, and its file source leads back to it; every entry of
  -- the index leads to a chain with that file source.
  pub record Inv (s : Metadata R) : Type 0 where
    pub owns :
        (p i : Bytes) (c : List (Version R))
        → lookup_in p i s.by_id ≡ some c
        → IsOwn s.source_index p i c
    pub points :
        (p src i : Bytes)
        → lookup (p, src) s.source_index ≡ some i
        → source_at (lookup_in p i s.by_id) ≡ some src

  IsOwn-move :
      (index : List ((Bytes × Bytes) × Bytes)) (p p' i i' src : Bytes) (c d : List (Version R))
      → bytes_eqb p' p && bytes_eqb i' i ≡ true
      → some c ≡ some d
      → IsChain i src 1 c
      → lookup (p, src) index ≡ some i
      → IsOwn index p' i' d
  IsOwn-move index p p' i i' src c d hit e h x =
      let (a, b) = same_keys p p' i i' hit in let e' : c ≡ d = cc in rw (a, b, ← e') (src, h, x)

  -- A chain replaced by another of the same id and file source.
  pub put-Inv :
      (p i src : Bytes) (c c' : List (Version R)) (s : Metadata R)
      → Inv s
      → lookup_in p i s.by_id ≡ some c
      → lookup (p, src) s.source_index ≡ some i
      → IsChain i src 1 c'
      → Inv (record s { by_id = insert_in p i c' s.by_id })
  put-Inv p i src c c' s v e x h = record {
    owns = λ p' i' d look.
        let law = lookup_in-insert_in p p' i i' c' s.by_id in
        elim (Bool-cases (bytes_eqb p' p && bytes_eqb i' i)) [
          | inl hit ↦
              IsOwn-move s.source_index p p' i i' src c' d hit (sym (rw hit at law) ∙ look) h x
          | inr miss ↦ v.owns p' i' d (sym (rw miss at law) ∙ look)
        ];
    points = λ p' src' i' look. ground (
      arith,
      v.points p' src' i' look,
      v.points p src i x,
      e,
      lookup_in-insert_in p p' i i' c' s.by_id,
      source_at-IsChain i src 1 c' h,
      bytes_eqb_iff p' p,
      bytes_eqb_iff i' i,
    );
  }

  -- A new chain, of an id and a file source that were free.
  pub new-Inv :
      (p i src : Bytes) (c : List (Version R)) (s : Metadata R)
      → Inv s
      → lookup_in p i s.by_id ≡ none
      → lookup (p, src) s.source_index ≡ none
      → IsChain i src 1 c
      → Inv (record {
        by_id = insert_in p i c s.by_id;
        source_index = insert (p, src) i s.source_index;
      })
  new-Inv p i src c s v e x h = record {
    owns = λ p' i' d look.
        let law = lookup_in-insert_in p p' i i' c s.by_id in
        elim (Bool-cases (bytes_eqb p' p && bytes_eqb i' i)) [
          | inl hit ↦
              IsOwn-move (insert (p, src) i s.source_index) p p' i i' src c d hit
                (sym (rw hit at law) ∙ look) h
                (ground (
                  arith,
                  lookup-insert (p, src) (p, src) i s.source_index,
                  bytes_eqb_iff p p,
                  bytes_eqb_iff src src,
                ))
          | inr miss ↦
              let (src', h', x') = v.owns p' i' d (sym (rw miss at law) ∙ look) in
              (
                src',
                h',
                ground (
                  arith,
                  x,
                  x',
                  lookup-insert (p, src) (p', src') i s.source_index,
                  bytes_eqb_iff p' p,
                  bytes_eqb_iff src' src,
                ),
              )
        ];
    points = λ p' src' i' look. ground (
      arith,
      v.points p' src' i',
      look,
      e,
      x,
      lookup-insert (p, src) (p', src') i s.source_index,
      lookup_in-insert_in p p' i i' c s.by_id,
      source_at-IsChain i src 1 c h,
      bytes_eqb_iff p' p,
      bytes_eqb_iff i' i,
      bytes_eqb_iff src' src,
    );
  }

  -- A chain and its entry in the index removed.
  pub drop-Inv :
      (p i src : Bytes) (c : List (Version R)) (s : Metadata R)
      → Inv s
      → lookup_in p i s.by_id ≡ some c
      → lookup (p, src) s.source_index ≡ some i
      → Inv
          (record { by_id = remove_in p i s.by_id; source_index = remove (p, src) s.source_index })
  drop-Inv p i src c s v e x = record {
    owns = λ p' i' d look.
        let law = lookup_in-remove_in p p' i i' s.by_id in
        elim (Bool-cases (bytes_eqb p' p && bytes_eqb i' i)) [
          | inl hit ↦ absurd (ground (arith, hit, law, look))
          | inr miss ↦
              let (src', h', x') = v.owns p' i' d (sym (rw miss at law) ∙ look) in
              (
                src',
                h',
                ground (
                  arith,
                  x,
                  x',
                  miss,
                  lookup-remove (p, src) (p', src') s.source_index,
                  bytes_eqb_iff p' p,
                  bytes_eqb_iff src' src,
                  bytes_eqb_iff i' i,
                ),
              )
        ];
    points = λ p' src' i' look. ground (
      arith,
      v.points p' src' i',
      v.points p src i x,
      look,
      e,
      x,
      lookup-remove (p, src) (p', src') s.source_index,
      lookup_in-remove_in p p' i i' s.by_id,
      bytes_eqb_iff p' p,
      bytes_eqb_iff i' i,
      bytes_eqb_iff src' src,
    );
  }

  pub touch-Inv : (p : Bytes) (s : Metadata R) → Inv s → Inv (record s { by_id = touch p s.by_id })
  touch-Inv p s v = record {
    owns = λ p' i' d look. v.owns p' i' d (sym (lookup_in-touch p p' i' s.by_id) ∙ look);
    points = λ p' src' i' look.
        ground (arith, v.points p' src' i' look, lookup_in-touch p p' i' s.by_id);
  }
