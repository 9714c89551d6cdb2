-- ===== src/Location/Lookups.antt =====
-- What the calls of the location repository mean to its callers.
use fssvrcpp.Domain.{FileLocation}
use fssvrcpp.Errors.{ErrorKind, Result-cases, ok, err, not_found}
use fssvrcpp.Location.Indices.{Inv, save-Inv, update_signed_url-Inv, delete-Inv}
use fssvrcpp.Location.{Locations, find, find_by_file_source, save, update_signed_url, delete}
use fssvrcpp.Prelude.{sym, ◌∙◌, List, [], ◌∷◌, ◌≡◌, arith, inl, inr, Option-cases, ◌↔◌}
use fssvrcpp.Prelude.Bytes.{Bytes}
use fssvrcpp.Prelude.Dict.{bytes_key, pair_key, lookup, lookup_in, bucket}
use fssvrcpp.Prelude.Int.{ℤ}

pub data Call (J : Type 0) : Type 0 where
  saves : Bytes → FileLocation J → Call J
  signs : Bytes → Bytes → Bytes → ℤ → Call J
  deletes : Bytes → Bytes → Call J

module _ {J : Type 0} where
  unfoldable pub step : Call J → Locations J → Locations J
  step (saves p l) s = (save p l s).1
  step (signs p f url now) s = (update_signed_url p f url now s).1
  step (deletes p f) s = (delete p f s).1

  unfoldable pub run : List (Call J) → Locations J → Locations J
  run [] s = s
  run (c ∷ cs) s = run cs (step c s)

  abbrev pub empty : Locations J
  empty = record { by_id = []; source_index = [] }

  empty-Inv : Inv empty
  empty-Inv = record {
    owns = λ p f l h. unfold lookup_in lookup bucket in cc;
    points = λ p src f h. unfold lookup in cc;
  }

  run-Inv : (cs : List (Call J)) (s : Locations J) → Inv s → Inv (run cs s)
  unfolding run step
  run-Inv [] s v = v
  run-Inv (saves p l ∷ cs) s v = run-Inv cs _ (save-Inv p l s v)
  run-Inv (signs p f url now ∷ cs) s v = run-Inv cs _ (update_signed_url-Inv p f url now s v)
  run-Inv (deletes p f ∷ cs) s v = run-Inv cs _ (delete-Inv p f s v)

  -- From an empty repository, whatever is called: every record stands under its own file id, the
  -- index leads from its file source to it, and every entry of the index leads to a record with
  -- that file source.
  pub histories-Inv : (cs : List (Call J)) → Inv (run cs empty)
  histories-Inv cs = run-Inv cs empty empty-Inv

  -- In a consistent repository the lookup by file source gives a record exactly if the lookup by
  -- the record's own id gives it and it has that file source. So no two ids share a file source.
  pub find_by_file_source-find :
      (p src : Bytes) (s : Locations J) (l : FileLocation J)
      → Inv s
      → (find_by_file_source p src s ≡ ok l) ↔ ((find p l.file_id s ≡ ok l) × (l.file_source ≡ src))
  unfolding find_by_file_source find
  find_by_file_source-find p src s l v = elim (Option-cases (lookup (p, src) s.source_index)) [
    | inl e ↦ ground (arith, e, v.owns p l.file_id l)
    | inr (f, e) ↦ ground (arith, e, v.points p src f, v.owns p f l, v.owns p l.file_id l)
  ]

  find_by_file_source-err :
      (p src : Bytes) (s : Locations J) (e : ErrorKind)
      → find_by_file_source p src s ≡ err e
      → e ≡ not_found
  unfolding find_by_file_source find
  find_by_file_source-err p src s e h = ground (arith, h)

  -- Two consistent repositories with the same lookups by id have the same ones by file source.
  pub find_by_file_source-eq :
      (p src : Bytes) (s s' : Locations J)
      → Inv s
      → Inv s'
      → ((f : Bytes) → find p f s' ≡ find p f s)
      → find_by_file_source p src s' ≡ find_by_file_source p src s
  find_by_file_source-eq p src s s' v v' same = elim (Result-cases (find_by_file_source p src s)) [
    | inl (l, e) ↦
        let at = (find_by_file_source-find p src s l v).0 e in
        (find_by_file_source-find p src s' l v').1 (same l.file_id ∙ at.0, at.1) ∙ sym e
    | inr (x, e) ↦ elim (Result-cases (find_by_file_source p src s')) [
      | inl (l, e') ↦
          let at = (find_by_file_source-find p src s' l v').0 e' in
          let there =
            (find_by_file_source-find p src s l v).1 (sym (same l.file_id) ∙ at.0, at.1) in
          cc
      | inr (x', e') ↦
          let n = find_by_file_source-err p src s x e in
          let n' = find_by_file_source-err p src s' x' e' in cc
    ]
  ]
