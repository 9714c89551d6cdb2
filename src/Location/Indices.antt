-- ===== src/Location/Indices.antt =====
-- The two indices of the location repository agree, whatever is called.
use fssvrcpp.Domain.{FileLocation}
use fssvrcpp.Location.{
  Locations, save, save_checked, is_taken, release_source, update_signed_url, delete,
}
use fssvrcpp.Prelude.{
  false, not, ◌&&◌, ◌||◌, List, Option, none, some, if◌then◌else◌, ◌≡◌, arith, inl, inr,
  Option-cases, Bool-cases,
}
use fssvrcpp.Prelude.Bytes.{Bytes, bytes_eqb, bytes_eqb_iff, is_empty}
use fssvrcpp.Prelude.Dict.{
  bytes_key, pair_key, lookup, lookup_in, touch, lookup-insert, lookup-remove, lookup_in-insert_in,
  lookup_in-remove_in, lookup_in-touch,
}
use fssvrcpp.Prelude.Int.{ℤ}

module _ {J : Type 0} where
  -- The file source of a record that may be there.
  abbrev pub source_at : Option (FileLocation J) → Option Bytes
  source_at none = none
  source_at (some l) = some l.file_source

  -- A record stands under its own file id, and its file source leads back to it; a file source in
  -- the index leads to a record with that file source.
  pub record Inv (s : Locations J) : Type 0 where
    pub owns :
        (p f : Bytes) (l : FileLocation J)
        → lookup_in p f s.by_id ≡ some l
        → (l.file_id ≡ f) × (lookup (p, l.file_source) s.source_index ≡ some f)
    pub points :
        (p src f : Bytes)
        → lookup (p, src) s.source_index ≡ some f
        → source_at (lookup_in p f s.by_id) ≡ some src

  pub release_source-lookup :
      (p src p' src' : Bytes) (old : FileLocation J) (index : List ((Bytes × Bytes) × Bytes))
      → lookup (p', src') (release_source p src (some old) index) ≡ (
          if not (bytes_eqb old.file_source src)
            && (bytes_eqb p' p && bytes_eqb src' old.file_source)
          then none
          else lookup (p', src') index)
  release_source-lookup p src p' src' old index =
      ground (arith, lookup-remove (p, old.file_source) (p', src') index)

  save_checked-owns :
      (p : Bytes) (n : FileLocation J) (s : Locations J) (p' f : Bytes) (l : FileLocation J)
      → Inv s
      → is_taken n.file_id (lookup (p, n.file_source) s.source_index) ≡ false
      → lookup_in p' f (save_checked p n s).1.by_id ≡ some l
      → (l.file_id ≡ f) × (lookup (p', l.file_source) (save_checked p n s).1.source_index ≡ some f)
  unfolding save_checked
  save_checked-owns p n s p' f l v free h = elim (Option-cases (lookup_in p n.file_id s.by_id)) [
    | inl fresh ↦ ground (
      arith,
      v.owns p' f l,
      free,
      fresh,
      lookup_in-insert_in p p' n.file_id f n s.by_id,
      lookup-insert (p, n.file_source) (p', l.file_source) n.file_id s.source_index,
      bytes_eqb_iff p' p,
      bytes_eqb_iff f n.file_id,
      bytes_eqb_iff l.file_source n.file_source,
    )
    | inr (old, was) ↦ ground (
      arith,
      v.owns p' f l,
      v.owns p n.file_id old,
      free,
      was,
      lookup_in-insert_in p p' n.file_id f n s.by_id,
      lookup-insert (p, n.file_source) (p', l.file_source) n.file_id
          (release_source p n.file_source (some old) s.source_index),
      release_source-lookup p n.file_source p' l.file_source old s.source_index,
      bytes_eqb_iff p' p,
      bytes_eqb_iff f n.file_id,
      bytes_eqb_iff l.file_source n.file_source,
      bytes_eqb_iff l.file_source old.file_source,
    )
  ]

  save_checked-points :
      (p : Bytes) (n : FileLocation J) (s : Locations J) (p' src f : Bytes)
      → Inv s
      → is_taken n.file_id (lookup (p, n.file_source) s.source_index) ≡ false
      → lookup (p', src) (save_checked p n s).1.source_index ≡ some f
      → source_at (lookup_in p' f (save_checked p n s).1.by_id) ≡ some src
  unfolding save_checked
  save_checked-points p n s p' src f v free h =
      elim (Option-cases (lookup_in p n.file_id s.by_id)) [
        | inl fresh ↦ ground (
          arith,
          v.points p' src f,
          free,
          fresh,
          lookup_in-insert_in p p' n.file_id f n s.by_id,
          lookup-insert (p, n.file_source) (p', src) n.file_id s.source_index,
          bytes_eqb_iff p' p,
          bytes_eqb_iff f n.file_id,
          bytes_eqb_iff src n.file_source,
        )
        | inr (old, was) ↦ ground (
          arith,
          v.points p' src f,
          v.owns p n.file_id old,
          free,
          was,
          lookup_in-insert_in p p' n.file_id f n s.by_id,
          lookup-insert (p, n.file_source) (p', src) n.file_id
              (release_source p n.file_source (some old) s.source_index),
          release_source-lookup p n.file_source p' src old s.source_index,
          bytes_eqb_iff p' p,
          bytes_eqb_iff f n.file_id,
          bytes_eqb_iff src n.file_source,
          bytes_eqb_iff src old.file_source,
          bytes_eqb_iff old.file_source n.file_source,
        )
      ]

  touch-Inv : (p : Bytes) (s : Locations J) → Inv s → Inv (record s { by_id = touch p s.by_id })
  touch-Inv p s v = record {
    owns = λ p' f l h. ground (arith, v.owns p' f l, lookup_in-touch p p' f s.by_id);
    points = λ p' src f h. ground (arith, v.points p' src f h, lookup_in-touch p p' f s.by_id);
  }

  save_checked-Inv :
      (p : Bytes) (n : FileLocation J) (s : Locations J) → Inv s → Inv (save_checked p n s).1
  save_checked-Inv p n s v =
      elim (Bool-cases (is_taken n.file_id (lookup (p, n.file_source) s.source_index))) [
        | inl taken ↦ unfold save_checked in rw taken (touch-Inv p s v)
        | inr free ↦ record {
          owns = λ p' f l. save_checked-owns p n s p' f l v free;
          points = λ p' src f. save_checked-points p n s p' src f v free;
        }
      ]

  pub save-Inv : (p : Bytes) (n : FileLocation J) (s : Locations J) → Inv s → Inv (save p n s).1
  save-Inv p n s v =
      elim (Bool-cases (is_empty p || (is_empty n.file_id || is_empty n.file_source))) [
        | inl bad ↦ unfold save in rw bad v
        | inr good ↦ unfold save in rw good (save_checked-Inv p n s v)
      ]

  pub update_signed_url-Inv :
      (p f url : Bytes) (now : ℤ) (s : Locations J)
      → Inv s
      → Inv (update_signed_url p f url now s).1
  unfolding update_signed_url
  update_signed_url-Inv p f url now s v = elim (Option-cases (lookup_in p f s.by_id)) [
    | inl e ↦ rw (e, update_signed_url) v
    | inr (l, e) ↦
        let l' = record l { signed_url = url; updated_at_epoch_seconds = now } in
        rw (e, update_signed_url)
          (record {
            owns = λ p' f' k h. ground (
              arith,
              v.owns p' f' k,
              v.owns p f l e,
              h,
              e,
              lookup_in-insert_in p p' f f' l' s.by_id,
              bytes_eqb_iff p' p,
              bytes_eqb_iff f' f,
            );
            points = λ p' src f' h. ground (
              arith,
              v.points p' src f' h,
              e,
              lookup_in-insert_in p p' f f' l' s.by_id,
              bytes_eqb_iff p' p,
              bytes_eqb_iff f' f,
            );
          })
  ]

  pub delete-Inv : (p f : Bytes) (s : Locations J) → Inv s → Inv (delete p f s).1
  unfolding delete
  delete-Inv p f s v = elim (Option-cases (lookup_in p f s.by_id)) [
    | inl e ↦ rw (e, delete) v
    | inr (l, e) ↦
        rw (e, delete)
          (record {
            owns = λ p' f' k h. ground (
              arith,
              v.owns p' f' k,
              v.owns p f l e,
              h,
              e,
              lookup_in-remove_in p p' f f' s.by_id,
              lookup-remove (p, l.file_source) (p', k.file_source) s.source_index,
              bytes_eqb_iff p' p,
              bytes_eqb_iff f' f,
              bytes_eqb_iff k.file_source l.file_source,
            );
            points = λ p' src f' h. ground (
              arith,
              v.points p' src f',
              h,
              e,
              lookup_in-remove_in p p' f f' s.by_id,
              lookup-remove (p, l.file_source) (p', src) s.source_index,
              bytes_eqb_iff p' p,
              bytes_eqb_iff f' f,
              bytes_eqb_iff src l.file_source,
            );
          })
  ]
