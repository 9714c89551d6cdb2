-- ===== src/Location/Changes.antt =====
-- What the lookups of the location repository give behind a save and behind a delete.
use fssvrcpp.Domain.{FileLocation}
use fssvrcpp.Errors.{Result, ok, err, is_ok, not_found, invalid_argument, location_already_exists}
use fssvrcpp.Location.Indices.{Inv, release_source-lookup, save-Inv}
use fssvrcpp.Location.{
  Locations, find, find_by_file_source, save, save_checked, is_taken, release_source, delete,
}
use fssvrcpp.Prelude.{
  some, Bool, false, Bool-cases, refl, not, ◌&&◌, ◌||◌, if◌then◌else◌, ◌≡◌, arith, inl, inr,
  Option-cases,
}
use fssvrcpp.Prelude.Bytes.{Bytes, bytes_eqb, bytes_eqb_iff, is_empty}
use fssvrcpp.Prelude.Dict.{
  bytes_key, pair_key, lookup, lookup_in, lookup_in-insert_in, lookup_in-remove_in, lookup_in-touch,
  lookup-insert, lookup-remove,
}
use fssvrcpp.Location.Lookups.{find_by_file_source-eq}

module _ {J : Type 0} where
  -- Whether a lookup gave a record with this file source, and whether one with another id.
  abbrev pub has_source : Bytes → Result (FileLocation J) → Bool
  has_source src (err e) = false
  has_source src (ok l) = bytes_eqb src l.file_source

  abbrev pub is_other : Bytes → Result (FileLocation J) → Bool
  is_other file_id (err e) = false
  is_other file_id (ok l) = not (bytes_eqb l.file_id file_id)

  -- The index holds a file source for another id exactly if a record with another id has it.
  is_taken-is_other :
      (p src id : Bytes) (s : Locations J)
      → Inv s
      → is_taken id (lookup (p, src) s.source_index) ≡ is_other id (find_by_file_source p src s)
  unfolding find_by_file_source find
  is_taken-is_other p src id s v = elim (Option-cases (lookup (p, src) s.source_index)) [
    | inl e ↦ ground (arith, e)
    | inr (f, e) ↦ elim (Option-cases (lookup_in p f s.by_id)) [
      | inl gone ↦ absurd (ground (arith, v.points p src f e, gone))
      | inr (l, there) ↦ ground (arith, e, there, v.owns p f l there)
    ]
  ]

  save-find :
      (p p' f : Bytes) (n : FileLocation J) (s : Locations J)
      → let bad = is_empty p || (is_empty n.file_id || is_empty n.file_source) in
        let taken = is_taken n.file_id (lookup (p, n.file_source) s.source_index) in
        ((save p n s).0 ≡ (
          if bad
          then err invalid_argument
          else if taken
          then err location_already_exists
          else ok tt))
        × (find p' f (save p n s).1 ≡ (
            if is_ok (save p n s).0 && (bytes_eqb p' p && bytes_eqb f n.file_id)
            then ok n
            else find p' f s))
  unfolding save find
  save-find p p' f n s =
      ground (arith, lookup_in-insert_in p p' n.file_id f n s.by_id, lookup_in-touch p p' f s.by_id)

  -- The lookup by file source behind a save that fails, and behind one that stores.
  save-refused :
      (p p' src : Bytes) (n : FileLocation J) (s : Locations J)
      → is_ok (save p n s).0 ≡ false
      → Inv s
      → find_by_file_source p' src (save p n s).1 ≡ find_by_file_source p' src s
  save-refused p p' src n s failed v =
      find_by_file_source-eq p' src s (save p n s).1 v (save-Inv p n s v)
        λ f. rw failed at ((save-find p p' f n s).1)

  save_checked-source :
      (p p' src : Bytes) (n : FileLocation J) (s : Locations J)
      → is_taken n.file_id (lookup (p, n.file_source) s.source_index) ≡ false
      → Inv s
      → find_by_file_source p' src (save_checked p n s).1 ≡ (
          if bytes_eqb p' p && bytes_eqb src n.file_source
          then ok n
          else if bytes_eqb p' p && has_source src (find p n.file_id s)
          then err not_found
          else find_by_file_source p' src s)
  unfolding save_checked find_by_file_source find
  save_checked-source p p' src n s free v = elim (Option-cases (lookup_in p n.file_id s.by_id)) [
    | inl fresh ↦ elim (Option-cases (lookup (p', src) s.source_index)) [
      | inl empty_there ↦ ground (
        arith,
        empty_there,
        free,
        fresh,
        lookup_in-insert_in p p' n.file_id n.file_id n s.by_id,
        lookup-insert (p, n.file_source) (p', src) n.file_id s.source_index,
        bytes_eqb_iff p' p,
        bytes_eqb_iff src n.file_source,
        bytes_eqb_iff n.file_id n.file_id,
      )
      | inr (g, there) ↦ ground (
        arith,
        there,
        v.points p' src g there,
        lookup_in-insert_in p p' n.file_id g n s.by_id,
        bytes_eqb_iff g n.file_id,
        free,
        fresh,
        lookup_in-insert_in p p' n.file_id n.file_id n s.by_id,
        lookup-insert (p, n.file_source) (p', src) n.file_id s.source_index,
        bytes_eqb_iff p' p,
        bytes_eqb_iff src n.file_source,
        bytes_eqb_iff n.file_id n.file_id,
      )
    ]
    | inr (old, was) ↦ elim (Option-cases (lookup (p', src) s.source_index)) [
      | inl empty_there ↦ ground (
        arith,
        empty_there,
        free,
        was,
        lookup_in-insert_in p p' n.file_id n.file_id n s.by_id,
        lookup-insert (p, n.file_source) (p', src) n.file_id
            (release_source p n.file_source (some old) s.source_index),
        bytes_eqb_iff p' p,
        bytes_eqb_iff src n.file_source,
        bytes_eqb_iff n.file_id n.file_id,
        v.owns p n.file_id old was,
        release_source-lookup p n.file_source p' src old s.source_index,
        bytes_eqb_iff src old.file_source,
        bytes_eqb_iff old.file_source n.file_source,
      )
      | inr (g, there) ↦ ground (
        arith,
        there,
        v.points p' src g there,
        lookup_in-insert_in p p' n.file_id g n s.by_id,
        bytes_eqb_iff g n.file_id,
        free,
        was,
        lookup_in-insert_in p p' n.file_id n.file_id n s.by_id,
        lookup-insert (p, n.file_source) (p', src) n.file_id
            (release_source p n.file_source (some old) s.source_index),
        bytes_eqb_iff p' p,
        bytes_eqb_iff src n.file_source,
        bytes_eqb_iff n.file_id n.file_id,
        v.owns p n.file_id old was,
        release_source-lookup p n.file_source p' src old s.source_index,
        bytes_eqb_iff src old.file_source,
        bytes_eqb_iff old.file_source n.file_source,
      )
    ]
  ]

  save-source :
      (p p' src : Bytes) (n : FileLocation J) (s : Locations J)
      → Inv s
      → find_by_file_source p' src (save p n s).1 ≡ (
          if is_ok (save p n s).0 && (bytes_eqb p' p && bytes_eqb src n.file_source)
          then ok n
          else if is_ok (save p n s).0 && (bytes_eqb p' p && has_source src (find p n.file_id s))
          then err not_found
          else find_by_file_source p' src s)
  save-source p p' src n s v = elim (Bool-cases (is_ok (save p n s).0)) [
    | inr failed ↦ rw failed (save-refused p p' src n s failed v)
    | inl stored ↦
        let good : (is_empty p || (is_empty n.file_id || is_empty n.file_source)) ≡ false =
          ground (arith, stored, (save-find p p src n s).0) in
        let free : is_taken n.file_id (lookup (p, n.file_source) s.source_index) ≡ false =
          ground (arith, stored, (save-find p p src n s).0) in
        let kept : (save p n s).1 ≡ (save_checked p n s).1 = unfold save in rw good refl in
        rw (stored, kept) (save_checked-source p p' src n s free v)
  ]

  -- `save` fails on an empty argument, and on a file source that a record with another id has; else
  -- it stores. A call that fails changes no lookup. After one that stores, the lookups by its id and
  -- by its file source give the new record, the file source that its id had before, if that was
  -- another one, leads nowhere, and every other lookup by id or by file source is as before.
  pub find-save :
      (p p' f src : Bytes) (n : FileLocation J) (s : Locations J)
      → Inv s
      → let bad = is_empty p || (is_empty n.file_id || is_empty n.file_source) in
        let taken = is_other n.file_id (find_by_file_source p n.file_source s) in
        let stored = is_ok (save p n s).0 in
        ((save p n s).0 ≡ (
          if bad
          then err invalid_argument
          else if taken
          then err location_already_exists
          else ok tt))
        × (find p' f (save p n s).1
            ≡ (if stored && (bytes_eqb p' p && bytes_eqb f n.file_id) then ok n else find p' f s))
        × (find_by_file_source p' src (save p n s).1 ≡ (
            if stored && (bytes_eqb p' p && bytes_eqb src n.file_source)
            then ok n
            else if stored && (bytes_eqb p' p && has_source src (find p n.file_id s))
            then err not_found
            else find_by_file_source p' src s))
  find-save p p' f src n s v =
      rw (← is_taken-is_other p n.file_source n.file_id s v)
        ((save-find p p' f n s).0, (save-find p p' f n s).1, save-source p p' src n s v)

  -- `delete` succeeds exactly on an id that is there; afterwards neither its id nor its file source
  -- leads to a record, and every other lookup by id or by file source is as before.
  pub find-delete :
      (p f p' f' src : Bytes) (s : Locations J)
      → Inv s
      → let s' = (delete p f s).1 in
        ((delete p f s).0 ≡ (if is_ok (find p f s) then ok tt else err not_found))
        × (find p' f' s'
            ≡ (if bytes_eqb p' p && bytes_eqb f' f then err not_found else find p' f' s))
        × (find_by_file_source p' src s' ≡ (
            if bytes_eqb p' p && has_source src (find p f s)
            then err not_found
            else find_by_file_source p' src s))
  unfolding delete find find_by_file_source
  find-delete p f p' f' src s v = elim (Option-cases (lookup_in p f s.by_id)) [
    | inl e ↦ ground (arith, e, bytes_eqb_iff p' p, bytes_eqb_iff f' f)
    | inr (k, e) ↦ elim (Option-cases (lookup (p', src) s.source_index)) [
      | inl none_there ↦ ground (
        arith,
        e,
        none_there,
        lookup_in-remove_in p p' f f' s.by_id,
        lookup-remove (p, k.file_source) (p', src) s.source_index,
      )
      | inr (g, there) ↦ ground (
        arith,
        e,
        there,
        v.points p' src g there,
        lookup_in-remove_in p p' f f' s.by_id,
        lookup_in-remove_in p p' f g s.by_id,
        lookup-remove (p, k.file_source) (p', src) s.source_index,
        bytes_eqb_iff p' p,
        bytes_eqb_iff g f,
        bytes_eqb_iff src k.file_source,
      )
    ]
  ]
