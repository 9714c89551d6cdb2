-- ===== src/BlobStore/Pages.antt =====
-- src/infra/blob/memory/memory_blob_store.cpp: the pages of `list`. Followed by their tokens to the
-- last one, they are the listing that one page without a limit would be.
use fssvrcpp.Prelude.{
  ℕ, zero, suc, ◌≤◌, ◌<◌, true, false, List, [], ◌∷◌, ◌++◌, some, length, get_last?, ◌≡◌, refl, sym,
  ap, ◌∙◌, ◌⊎◌, inl, inr, arith, Bool-cases,
}
use mathlib.Core.List.{append-nil, append_assoc}
use fssvrcpp.Prelude.Bytes.{
  Bytes, bytes_ltb, bytes_eqb_iff, bytes_ltb_irrefl, bytes_ltb_trans, bytes_ltb_connex, is_empty,
  starts_with,
}
use fssvrcpp.Prelude.Dict.{bytes_key, Above, IsSorted}
use fssvrcpp.BlobStore.Types.{Object, Objects}
use fssvrcpp.BlobStore.Listing.{
  ListEntry, ListPage, entry_of, lower_bound, upper_bound, last_key, page_from, start_at,
}
use fssvrcpp.BlobStore.Prefixes.{
  entries_with, follow, starts_with-lower, IsReach, entries_with-Above, upper_bound-Above,
  upper_bound-skip, get_last?-append,
}

-- What a page is: the rest of the listing, or a part of it whose token leads to what is left.
abbrev IsPage : Bytes → Bytes → List ListEntry → Objects → ListPage → Type 0
IsPage prefix from taken m page =
    ((page.continuation_token ≡ []) × (page.entries ≡ taken ++ entries_with prefix m))
    ⊎ ((is_empty page.continuation_token ≡ false)
        × (bytes_ltb page.continuation_token from ≡ false)
        × (page.entries ++ entries_with prefix (upper_bound page.continuation_token m)
            ≡ taken ++ entries_with prefix m)
        × (length (upper_bound page.continuation_token m) ≤ length m))

step-IsPage :
    (prefix from k : Bytes) (o : Object) (taken : List ListEntry) (m : Objects) (page : ListPage)
    → starts_with prefix k ≡ true
    → bytes_ltb from k ≡ true
    → IsPage prefix k (taken ++ (entry_of k o ∷ [])) m page
    → IsPage prefix from taken ((k, o) ∷ m) page
unfolding entries_with
step-IsPage prefix from k o taken m page on up (inl (t, es)) =
    inl (
      t,
      rw (entries_with, on) (es ∙ append_assoc taken (entry_of k o ∷ []) (entries_with prefix m)),
    )
step-IsPage prefix from k o taken m page on up (inr (ne, ge, es, le)) =
    let skip = upper_bound-skip page.continuation_token k o m ge in
    inr (
      ne,
      ground (arith, bytes_ltb_trans page.continuation_token from k),
      rw (skip, entries_with, on)
          (es ∙ append_assoc taken (entry_of k o ∷ []) (entries_with prefix m)),
      rw skip (omega (arith, le)),
    )

entries_with-off :
    (p k : Bytes) (o : Object) (m : Objects)
    → starts_with p k ≡ false
    → bytes_ltb k p ≡ false
    → Above k m
    → entries_with p ((k, o) ∷ m) ≡ []
unfolding entries_with
entries_with-off p k o m off l a = rw (entries_with, off) (entries_with-Above p k m off l a)

off-IsPage :
    (p k : Bytes) (o : Object) (taken : List ListEntry) (m : Objects)
    → starts_with p k ≡ false
    → bytes_ltb k p ≡ false
    → Above k m
    → taken ≡ taken ++ entries_with p ((k, o) ∷ m)
off-IsPage p k o taken m off l a = rw (entries_with-off p k o m off l a) (sym (append-nil taken))

-- The loop, with some entries taken, the last of the key `from`, and the keys above that left.
page_from-IsPage :
    (prefix from : Bytes) (room : ℕ) (taken : List ListEntry) (m : Objects)
    → last_key taken ≡ from
    → is_empty from ≡ false
    → Above from m
    → IsSorted m
    → IsReach prefix m
    → IsPage prefix from taken m (page_from prefix room taken m)
unfolding page_from
page_from-IsPage prefix from room taken [] e f a s r =
    inl (refl, unfold entries_with in sym (append-nil taken))
page_from-IsPage prefix from zero taken ((k, o) ∷ m) e f a s r =
    elim (Bool-cases (starts_with prefix k)) [
      | inl on ↦
          let all_left = upper_bound-Above from ((k, o) ∷ m) a in
          rw (page_from, on, e)
            (inr (f, bytes_ltb_irrefl from, rw all_left refl, rw all_left (omega arith)))
      | inr off ↦ rw (page_from, off) (inl (refl, off-IsPage prefix k o taken m off r.1 s.0))
    ]
page_from-IsPage prefix from (suc room) taken ((k, o) ∷ m) e f a s r =
    elim (Bool-cases (starts_with prefix k)) [
      | inl on ↦
          rw (page_from, on)
            (step-IsPage prefix from k o taken m
              (page_from prefix room (taken ++ (entry_of k o ∷ [])) m) on a.0
              (page_from-IsPage prefix k room (taken ++ (entry_of k o ∷ [])) m
                (get_last?-append taken (entry_of k o)) r.0 s.0 s.1 r.2))
      | inr off ↦ rw (page_from, off) (inl (refl, off-IsPage prefix k o taken m off r.1 s.0))
    ]

not_below : (a b c : Bytes) → bytes_ltb a b ≡ false → bytes_ltb b c ≡ false → bytes_ltb a c ≡ false
not_below a b c h k = ground (arith, bytes_ltb_connex b c, bytes_eqb_iff b c, bytes_ltb_trans a c b)

not_below_later :
    (p t k : Bytes) → bytes_ltb t p ≡ false → bytes_ltb t k ≡ true → bytes_ltb k p ≡ false
not_below_later p t k h l = ground (arith, bytes_ltb_trans t k p)

Above-from : (t k : Bytes) (m : Objects) → bytes_ltb t k ≡ true → Above k m → Above t m
Above-from t k [] h a = tt
Above-from t k ((j, o) ∷ m) h a = (bytes_ltb_trans t k j h a.0, Above-from t k m h a.1)

-- No key is empty.
abbrev pub IsProper : Objects → Type 0
IsProper [] = Unit
IsProper ((key, o) ∷ m) = (is_empty key ≡ false) × IsProper m

Above-IsReach :
    (p t : Bytes) (m : Objects) → bytes_ltb t p ≡ false → Above t m → IsProper m → IsReach p m
Above-IsReach p t [] h a n = tt
Above-IsReach p t ((k, o) ∷ m) h a n =
    (n.0, not_below_later p t k h a.0, Above-IsReach p t m h a.1 n.1)

-- What a listing needs of the objects that it starts from.
abbrev IsStart : Bytes → Objects → Type 0
IsStart p m = IsSorted m × IsReach p m

upper_bound-IsStart :
    (p t : Bytes) (m : Objects)
    → bytes_ltb t p ≡ false
    → IsSorted m
    → IsProper m
    → IsStart p (upper_bound t m) × Above t (upper_bound t m)
unfolding upper_bound
upper_bound-IsStart p t [] h s n = ((tt, tt), tt)
upper_bound-IsStart p t ((k, o) ∷ m) h s n = elim (Bool-cases (bytes_ltb t k)) [
  | inl up ↦
      let above = Above-from t k m up s.0 in
      rw (upper_bound, up) ((s, Above-IsReach p t ((k, o) ∷ m) h (up, above) n), (up, above))
  | inr down ↦ rw (upper_bound, down) (upper_bound-IsStart p t m h s.1 n.1)
]

lower_bound-IsStart :
    (p : Bytes) (m : Objects) → IsSorted m → IsProper m → IsStart p (lower_bound p m)
unfolding lower_bound
lower_bound-IsStart p [] s n = (tt, tt)
lower_bound-IsStart p ((k, o) ∷ m) s n = elim (Bool-cases (bytes_ltb k p)) [
  | inl down ↦ rw (lower_bound, down) (lower_bound-IsStart p m s.1 n.1)
  | inr up ↦ rw (lower_bound, up) (s, (n.0, up, Above-IsReach p k m up s.0 n.1))
]

entries_with-lower_bound :
    (p : Bytes) (m : Objects) → entries_with p (lower_bound p m) ≡ entries_with p m
unfolding lower_bound entries_with
entries_with-lower_bound p [] = refl
entries_with-lower_bound p ((k, o) ∷ m) =
    ground (arith, starts_with-lower p k, entries_with-lower_bound p m)

upper_bound-lower_bound :
    (p t : Bytes) (m : Objects)
    → bytes_ltb t p ≡ false
    → upper_bound t (lower_bound p m) ≡ upper_bound t m
unfolding lower_bound upper_bound
upper_bound-lower_bound p t [] h = refl
upper_bound-lower_bound p t ((k, o) ∷ m) h =
    ground (arith, bytes_ltb_trans t k p, upper_bound-lower_bound p t m h)

upper_bound-upper_bound :
    (t u : Bytes) (m : Objects)
    → bytes_ltb u t ≡ false
    → upper_bound u (upper_bound t m) ≡ upper_bound u m
unfolding upper_bound
upper_bound-upper_bound t u [] h = refl
upper_bound-upper_bound t u ((k, o) ∷ m) h =
    ground (arith, not_below u t k, upper_bound-upper_bound t u m h)

length-bound : (p t : Bytes) (m : Objects) → length (start_at p t m) ≤ length m
unfolding lower_bound upper_bound
length-bound p t [] = ground arith
length-bound p t ((k, o) ∷ m) = ground (arith, length-bound p t m)

-- A page of a start: all of it, or a part whose token is further on and leads to the rest.
abbrev IsFirst : Bytes → Objects → ListPage → Type 0
IsFirst p m page =
    ((page.continuation_token ≡ []) × (page.entries ≡ entries_with p m))
    ⊎ ((is_empty page.continuation_token ≡ false)
        × (bytes_ltb page.continuation_token p ≡ false)
        × ((t : Bytes) → Above t m → bytes_ltb page.continuation_token t ≡ false)
        × (page.entries ++ entries_with p (upper_bound page.continuation_token m)
            ≡ entries_with p m)
        × (length (upper_bound page.continuation_token m) < length m))

page_from-IsFirst :
    (p : Bytes) (room : ℕ) (m : Objects) → IsStart p m → IsFirst p m (page_from p (suc room) [] m)
unfolding page_from get_last?
page_from-IsFirst p room [] (s, r) = inl (refl, unfold entries_with in refl)
page_from-IsFirst p room ((k, o) ∷ m) (s, r) = elim (Bool-cases (starts_with p k)) [
  | inr off ↦ rw (page_from, off) (inl (refl, sym (entries_with-off p k o m off r.1 s.0)))
  | inl on ↦
      let page = page_from p room (entry_of k o ∷ []) m in
      rw (page_from, on)
        (elim (page_from-IsPage p k room (entry_of k o ∷ []) m refl r.0 s.0 s.1 r.2) [
          | inl (t, es) ↦ inl (t, unfold entries_with in rw (entries_with, on) es)
          | inr (ne, ge, es, le) ↦
              let skip = upper_bound-skip page.continuation_token k o m ge in
              inr (
                ne,
                not_below page.continuation_token k p ge r.1,
                (λ t a.
                    not_below page.continuation_token k t ge
                      (not_below_later t t k (bytes_ltb_irrefl t) a.0)),
                rw skip (unfold entries_with in rw (entries_with, on) es),
                rw skip (omega (arith, le)),
              )
        ])
]

-- One call, and the rest of the walk from its token.
follow-step :
    (fuel : ℕ) (p : Bytes) (room : ℕ) (t : Bytes) (objects : Objects)
    → let m = start_at p t objects in
      IsStart p m
      → ((u : Bytes)
          → bytes_ltb u p ≡ false
          → ((t' : Bytes) → Above t' m → bytes_ltb u t' ≡ false)
          → upper_bound u m ≡ upper_bound u objects)
      → ((u : Bytes)
          → is_empty u ≡ false
          → bytes_ltb u p ≡ false
          → length (upper_bound u objects) < fuel
          → follow fuel p (suc room) u objects ≡ some (entries_with p (upper_bound u objects)))
      → length m < suc fuel
      → follow (suc fuel) p (suc room) t objects ≡ some (entries_with p m)
unfolding follow
follow-step fuel p room t objects start skip rest enough =
    let m = start_at p t objects in
    let page = page_from p (suc room) [] m in
    elim (page_from-IsFirst p room m start) [
      | inl (e, es) ↦ rw (follow, e) (ap some es)
      | inr (ne, ge, later, es, le) ↦
          let u = page.continuation_token in
          let same = skip u ge later in
          let tail = rest u ne ge (rw (sym same) (omega (arith, le, enough))) in
          rw (follow, ne, tail) (ap some (rw (sym same) es))
    ]

follow-later :
    (fuel : ℕ) (p : Bytes) (room : ℕ) (t : Bytes) (objects : Objects)
    → IsSorted objects
    → IsProper objects
    → is_empty t ≡ false
    → bytes_ltb t p ≡ false
    → length (upper_bound t objects) < fuel
    → follow fuel p (suc room) t objects ≡ some (entries_with p (upper_bound t objects))
follow-later zero p room t objects s n e l enough = absurd (omega (arith, enough))
follow-later (suc fuel) p room t objects s n e l enough =
    let start = upper_bound-IsStart p t objects l s n in
    let at : start_at p t objects ≡ upper_bound t objects = rw e refl in
    follow-step fuel p room t objects (rw at start.0)
      (λ u ge later. rw at (upper_bound-upper_bound t u objects (later t (rw at start.1))))
      (λ u ne ge less. follow-later fuel p room u objects s n ne ge less) (rw at enough)
    ∙ ap (λ m. some (entries_with p m)) at

-- In a container whose keys rise and are not empty, the pages of a prefix, of any positive limit
-- and each asked for with the token of the one before, come to an end within as many calls as there
-- are objects and one more; together their entries are those of the keys with the prefix, each
-- once, in key order.
pub follow-entries_with :
    (fuel : ℕ) (p : Bytes) (limit : ℕ) (objects : Objects)
    → IsSorted objects
    → IsProper objects
    → 0 < limit
    → length objects < fuel
    → follow fuel p limit [] objects ≡ some (entries_with p objects)
follow-entries_with zero p limit objects s n l enough = absurd (omega (arith, enough))
follow-entries_with (suc fuel) p zero objects s n l enough = absurd (omega (arith, l))
follow-entries_with (suc fuel) p (suc room) objects s n l enough =
    let bound = length-bound p [] objects in
    follow-step fuel p room [] objects (lower_bound-IsStart p objects s n)
      (λ u ge later. upper_bound-lower_bound p u objects ge)
      (λ u ne ge less. follow-later fuel p room u objects s n ne ge less)
      (omega (arith, bound, enough))
    ∙ ap some (entries_with-lower_bound p objects)
