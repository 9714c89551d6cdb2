-- ===== src/UseCases/Publishing.antt =====
-- src/app/usecases/usecases.cpp: `CreateFileMetadata` publishes what it claimed, or gives the claim
-- back.
use fssvrcpp.Domain.{StorageZone, staging, persistent, ObjectRef, FileLocation, FileMetadataRecord}
use fssvrcpp.Errors.{Result, ok, is_ok, Result-cases}
use fssvrcpp.Metadata.ClaimStep.{claim_for_write-claimed, after_claim-lookup}
use fssvrcpp.Metadata.Claiming.{claim_for_write, mark_ready, release_claim}
use fssvrcpp.Metadata.Lifecycle.{mark_ready-claim_for_write, release_claim-claim_for_write}
use fssvrcpp.Metadata.Records.{get_by_id, get_latest_by_file_source}
use fssvrcpp.Metadata.Types.{claiming, Metadata, MetadataClaim, is_invalid}
use fssvrcpp.Prelude.{true, false, ◌||◌, none, ◌≡◌, refl, ap, ◌∙◌, ◌⊎◌, inl, inr, arith}
use fssvrcpp.Prelude.Bytes.{Bytes, is_empty}
use fssvrcpp.Prelude.Dict.{bytes_key, lookup_in}
use fssvrcpp.Prelude.Int.{ℤ, pos}
use fssvrcpp.UseCases.Claims.{
  IsFor, is_left, IsLocated, prepare-IsFor, prepare-is_left, release_now-metadata,
  abort_create-metadata,
}
use fssvrcpp.UseCases.Create.{
  abort_create, unstage, settle, finish, create_claimed, return_existing_record,
}
use fssvrcpp.UseCases.Ports.{CallerContext, Ports, ensure_lease_ownership}
use fssvrcpp.UseCases.Prepare.{Prepared, aborts, leaves, existing, prepared, prepare}
use fssvrcpp.World.{World, Extra}

module _ {R : Type 0} where
  -- The claim is open: it was granted on some repository, and the metadata are as it left them.
  abbrev pub IsClaimed :
      ℤ → Bytes → FileMetadataRecord R → Metadata R → MetadataClaim R → Metadata R → Type 0
  IsClaimed now p out before c m =
      (claim_for_write now p out before ≡ (ok c, m)) × (c.claimed ≡ true)

  -- Published: the reads by id and by file source give one record, of this id and file source.
  abbrev pub IsPublished : Bytes → FileMetadataRecord R → Metadata R → Type 0
  IsPublished p out m =
      (r : FileMetadataRecord R) × (get_by_id p out.id m ≡ ok r)
      × (get_latest_by_file_source p out.file_source m ≡ ok r)
      × (r.id ≡ out.id)
      × (r.file_source ≡ out.file_source)

  same-is_invalid :
      (p : Bytes) (a b : FileMetadataRecord R)
      → a.id ≡ b.id
      → is_invalid p b ≡ false
      → is_invalid p a ≡ false
  unfolding is_invalid
  same-is_invalid p a b e h = rw e h

  marked-IsPublished :
      (now : ℤ) (p : Bytes) (out f : FileMetadataRecord R) (before m : Metadata R)
      (c : MetadataClaim R)
      → IsClaimed now p out before c m
      → f.id ≡ out.id
      → f.file_source ≡ out.file_source
      → ((r : FileMetadataRecord R) × (r.id ≡ out.id)
          × ((mark_ready p out.id c.content.version f m).0 ≡ ok r))
        × IsPublished p out (mark_ready p out.id c.content.version f m).1
  marked-IsPublished now p out f before m c (e, mine) same_id same_source =
      let (claim, after, good, free, inactive) =
        claim_for_write-claimed now p out before m c e mine in
      let own : c.content.id ≡ out.id = rw claim refl in
      let q =
        mark_ready-claim_for_write now p out f before m c e mine
          (same-is_invalid p f out same_id good) same_source in
      let r = record f { id = out.id; version = pos 1 } in
      let q' = rw own at q in ((r, refl, q'.0), (r, q'.1, q'.2, refl, same_source))

  returned :
      (ports : Ports R) (r : FileMetadataRecord R)
      → ports.audit ≡ ok tt
      → return_existing_record ports r ≡ ok r.id
  unfolding return_existing_record
  returned ports r a = rw (return_existing_record, a) refl

  claimed-unread :
      (now : ℤ) (p : Bytes) (out : FileMetadataRecord R) (before m : Metadata R)
      (c : MetadataClaim R)
      → IsClaimed now p out before c m
      → is_ok (get_latest_by_file_source p out.file_source m) ≡ false
  claimed-unread now p out before m c (e, mine) =
      let (claim, after, good, free, inactive) =
        claim_for_write-claimed now p out before m c e mine in
      let (chain, entry, held) = after_claim-lookup now p out before in
      rw after (unfold get_latest_by_file_source in ground (arith, held))

  -- A valid claim of the file source, by a record whose id was free on that repository.
  abbrev pub IsRetry : Bytes → FileMetadataRecord R → Metadata R → FileMetadataRecord R → Type 0
  IsRetry p out before r =
      (is_invalid p r || is_empty r.file_source ≡ false)
      × (r.file_source ≡ out.file_source)
      × (lookup_in p r.id before.by_id ≡ none)

  -- The claim is granted.
  abbrev pub IsGranted : ℤ → Bytes → FileMetadataRecord R → Metadata R → Type 0
  IsGranted now p r m =
      (claim_for_write now p r m).0
      ≡ ok (record { claimed = true; content = record r { version = pos 1 }; state = claiming })

  -- A result that is the id of the published record, or an error with the claim given back: the
  -- other claim is granted.
  abbrev pub IsSettled :
      Bytes → FileMetadataRecord R → ℤ → FileMetadataRecord R → Result Bytes → Metadata R → Type 0
  IsSettled p out later retry r m =
      ((r ≡ ok out.id) × IsPublished p out m) ⊎ ((is_ok r ≡ false) × IsGranted later p retry m)

  released-IsGranted :
      (now later : ℤ) (p : Bytes) (out r : FileMetadataRecord R) (before m : Metadata R)
      (c : MetadataClaim R)
      → IsClaimed now p out before c m
      → IsRetry p out before r
      → IsGranted later p r (release_claim p out.id c.content.version m).1
  released-IsGranted now later p out r before m c (e, mine) (valid, same, fresh) =
      let (claim, after, good, free, inactive) =
        claim_for_write-claimed now p out before m c e mine in
      let own : c.content.id ≡ out.id = rw claim refl in
      let q = release_claim-claim_for_write now later p out r before m c e mine valid same fresh in
      (rw own at q).1

module _ {R J : Type 0} ⦃x : Extra J⦄ where
  unstage-metadata :
      (zone : StorageZone) (from : ObjectRef) (w : World R J)
      → (unstage zone from w).metadata ≡ w.metadata
  unstage-metadata staging from w = refl
  unstage-metadata persistent from w = refl

  settle-metadata :
      (ports : Ports R) (caller : CallerContext) (out : FileMetadataRecord R) (l : FileLocation J)
      (from to : ObjectRef) (w : World R J)
      → (settle ports caller out l from to w).metadata ≡ w.metadata
  unfolding settle
  settle-metadata ports caller out l from to w =
      unstage-metadata l.zone from _ ∙ release_now-metadata ports caller out.file_source w

  settled-IsPublished :
      (ports : Ports R) (caller : CallerContext) (out : FileMetadataRecord R) (l : FileLocation J)
      (from to : ObjectRef) (w : World R J)
      → IsPublished caller.partition out w.metadata
      → IsPublished caller.partition out (settle ports caller out l from to w).metadata
  settled-IsPublished ports caller out l from to w h =
      rw (settle-metadata ports caller out l from to w) h

  -- Of what the work comes to, a record to be marked ends well, with the claim published, and any
  -- error gives the claim back.
  finish-IsSettled :
      (ports : Ports R) (caller : CallerContext) (out : FileMetadataRecord R) (p : Prepared R J)
      (w : World R J) (before : Metadata R) (c : MetadataClaim R) (later : ℤ)
      (retry : FileMetadataRecord R)
      → IsClaimed ports.now_seconds caller.partition out before c w.metadata
      → IsRetry caller.partition out before retry
      → ports.audit ≡ ok tt
      → IsFor out p
      → is_left p ≡ false
      → IsSettled caller.partition out later retry
          (finish ports caller out c.content.version p w).0
          (finish ports caller out c.content.version p w).1.metadata
  unfolding finish
  finish-IsSettled ports caller out (aborts ref e) w before c later retry h again a k l =
      let w' = abort_create caller out c.content.version ref w in
      inr (
        refl,
        rw
            (release_now-metadata ports caller out.file_source w'
              ∙ abort_create-metadata caller out c.content.version ref w)
            (released-IsGranted ports.now_seconds later caller.partition out retry before w.metadata
              c h again),
      )
  finish-IsSettled ports caller out (leaves e) w before c later retry h again a k l = absurd cc
  finish-IsSettled ports caller out (existing r) w before c later retry h again a k l = absurd cc
  finish-IsSettled ports caller out (prepared f l' from to) w before c later retry h again a k l =
      let (done, published) =
        marked-IsPublished ports.now_seconds caller.partition out f before w.metadata c h k.0 k.1 in
      let w' = record w {
        metadata = (mark_ready caller.partition out.id c.content.version f w.metadata).1;
      } in
      rw (finish, done.2)
        (inl (
          returned ports done.0 a ∙ ap (λ i. ok i) done.1,
          settled-IsPublished ports caller out l' from to w' published,
        ))

  -- A granted claim that `create_claimed` takes up, with the record as it was claimed and the
  -- metadata as the claim left them, where the audit log answers, the location of the file source has
  -- its physical reference and the persistent container has a name. Whatever the leases, the stores
  -- with their faults, the digests and the location's other fields make of it: the result is the
  -- claimed id and the record is published under it, or it is an error and the claim is given back,
  -- so that any later valid claim of the file source, with an id that was free, is granted.
  pub create_claimed-IsSettled :
      (ports : Ports R) (caller : CallerContext) (out : FileMetadataRecord R) (w : World R J)
      (before : Metadata R) (c : MetadataClaim R) (later : ℤ) (retry : FileMetadataRecord R)
      → IsRetry caller.partition out before retry
      → IsClaimed ports.now_seconds caller.partition out before c w.metadata
      → ports.audit ≡ ok tt
      → IsLocated ports caller out.file_source w
      → IsSettled caller.partition out later retry
          (create_claimed ports caller out c.content.version w).0
          (create_claimed ports caller out c.content.version w).1.metadata
  unfolding create_claimed
  create_claimed-IsSettled ports caller out w before c later retry again h a located =
      let owned = ensure_lease_ownership ports caller out.file_source w in
      let w' = record w { leases = owned.1.leases } in
      let p = prepare ports caller out w' in
      let hidden = claimed-unread ports.now_seconds caller.partition out before w.metadata c h in
      elim (Result-cases owned.0) [
        | inr (e, q) ↦
            rw (create_claimed, q)
              (inr (
                refl,
                rw (abort_create-metadata caller out c.content.version none w') (
                    released-IsGranted ports.now_seconds later caller.partition out retry before
                      w.metadata c h again),
              ))
        | inl (u, e) ↦
            rw (create_claimed, e)
              (finish-IsSettled ports caller out p.0 (record w' { stores = p.1 }) before c later
                retry h again a (prepare-IsFor ports caller out w' hidden)
                (prepare-is_left ports caller out w' hidden located))
      ]
