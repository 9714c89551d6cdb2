-- ===== src/Gc/References.antt =====
-- src/app/tasks/gc_task.cpp: `ReferencedRefs` reads all locations of a partition, page by page.
use mathlib.Core.List.{append-nil}
use fssvrcpp.Domain.{FileLocation}
use fssvrcpp.Errors.{ok}
use fssvrcpp.Gc.Scans.{Refs, page_query, ref_key, add_refs, refs_from, referenced_refs}
use fssvrcpp.Location
use fssvrcpp.Location.{Locations, LocationPage, matched, size, find, matches, earlier}
use fssvrcpp.Prelude.{
  ℕ, zero, suc, ◌+◌, ◌-◌, ◌≤◌, ◌<◌, min, Bool, true, false, ◌&&◌, ◌||◌, List, [], ◌∷◌, ◌++◌, none,
  some, length, take, drop, leb, any, place, sort, has_value, ◌≡◌, refl, sym, ap, ◌∙◌, inl, inr,
  arith, Bool-cases, Option-cases,
}
use fssvrcpp.Prelude.Bytes.{Bytes, bytes_eqb, bytes_eqb_iff}
use fssvrcpp.Prelude.Dict.{
  bytes_key, lookup, lookup_in, bucket, insert, lookup-insert, values_where,
}
use fssvrcpp.Prelude.Int.{pos, is_neg}
use fssvrcpp.World.{Extra}

module _ {A : Type 0} where
  length-take : (n : ℕ) (xs : List A) → length (take n xs) ≡ min n (length xs)
  length-take zero xs = omega arith
  length-take (suc n) [] = omega arith
  length-take (suc n) (x ∷ xs) = omega (arith, length-take n xs)

  length-drop : (n : ℕ) (xs : List A) → length (drop n xs) ≡ length xs - n
  length-drop zero xs = omega arith
  length-drop (suc n) [] = omega arith
  length-drop (suc n) (x ∷ xs) = omega (arith, length-drop n xs)

  empty-of-length : (xs : List A) → length xs ≡ 0 → xs ≡ []
  empty-of-length [] h = refl
  empty-of-length (x ∷ xs) h = absurd (omega (arith, h))

  take-nil : (n : ℕ) → ◌≡◌ {A = List A} (take n []) []
  take-nil zero = refl
  take-nil (suc n) = refl

  drop-nil : (n : ℕ) → ◌≡◌ {A = List A} (drop n []) []
  drop-nil zero = refl
  drop-nil (suc n) = refl

  take-drop-length : (n : ℕ) (xs : List A) → take n xs ++ drop (length (take n xs)) xs ≡ xs
  take-drop-length zero xs = refl
  take-drop-length (suc n) [] = refl
  take-drop-length (suc n) (x ∷ xs) = ap (λ ys. x ∷ ys) (take-drop-length n xs)

  -- A page, and what is behind it.
  page-drop :
      (n a k : ℕ) (xs : List A)
      → k ≡ a + length (take n (drop a xs))
      → take n (drop a xs) ++ drop k xs ≡ drop a xs
  page-drop n zero k xs e =
      let same : k ≡ length (take n xs) = omega (arith, e) in
      ap (λ j. take n xs ++ drop j xs) same ∙ take-drop-length n xs
  page-drop n (suc a) k [] e = rw (take-nil n, drop-nil k) refl
  page-drop n (suc a) zero (x ∷ xs) e = absurd (omega (arith, e))
  page-drop n (suc a) (suc k) (x ∷ xs) e = page-drop n a k xs (omega (arith, e))

  -- Where the loop stops, nothing is behind the page.
  last-page :
      (n a : ℕ) (xs : List A)
      → 0 < n
      → leb (length (take n (drop a xs))) 0 || leb (length xs) (a + length (take n (drop a xs)))
        ≡ true
      → drop (a + length (take n (drop a xs))) xs ≡ []
  last-page n a xs p h = empty-of-length (drop (a + length (take n (drop a xs))) xs) (
      ground (
        arith,
        length-take n (drop a xs),
        length-drop a xs,
        length-drop (a + length (take n (drop a xs))) xs,
      ))

  any-place :
      (p : A → Bool) (lt : A → A → Bool) (a : A) (xs : List A)
      → any p (place lt a xs) ≡ p a || any p xs
  unfolding place
  any-place p lt a [] = ground arith
  any-place p lt a (x ∷ xs) = ground (arith, any-place p lt a xs)

  any-sort : (p : A → Bool) (lt : A → A → Bool) (xs : List A) → any p (sort lt xs) ≡ any p xs
  unfolding sort
  any-sort p lt [] = refl
  any-sort p lt (x ∷ xs) = ground (arith, any-place p lt x (sort lt xs), any-sort p lt xs)

  length-place :
      (lt : A → A → Bool) (a : A) (xs : List A) → length (place lt a xs) ≡ suc (length xs)
  unfolding place
  length-place lt a [] = refl
  length-place lt a (x ∷ xs) = ground (arith, length-place lt a xs)

  length-sort : (lt : A → A → Bool) (xs : List A) → length (sort lt xs) ≡ length xs
  unfolding sort
  length-sort lt [] = refl
  length-sort lt (x ∷ xs) = ground (arith, length-place lt x (sort lt xs), length-sort lt xs)

  length-values_where :
      (q : Bytes → A → Bool) (m : List (Bytes × A)) → length (values_where q m) ≤ length m
  unfolding values_where
  length-values_where q [] = omega arith
  length-values_where q ((k, a) ∷ m) = ground (arith, length-values_where q m)

  any-values_where :
      (r : A → Bool) (q : Bytes → A → Bool) (k : Bytes) (a : A) (m : List (Bytes × A))
      → lookup k m ≡ some a
      → q k a ≡ true
      → r a ≡ true
      → any r (values_where q m) ≡ true
  unfolding values_where lookup
  any-values_where r q k a [] h i j = absurd cc
  any-values_where r q k a ((k', a') ∷ m) h i j =
      ground (arith, h, i, j, bytes_eqb_iff k k', any-values_where r q k a m)

module _ {J : Type 0} ⦃x : Extra J⦄ where
  add_refs-append :
      (xs ys : List (FileLocation J)) (refs : Refs)
      → add_refs (xs ++ ys) refs ≡ add_refs ys (add_refs xs refs)
  unfolding add_refs
  add_refs-append [] ys refs = refl
  add_refs-append (l ∷ xs) ys refs = elim (Option-cases (x.physical l.extra)) [
    | inl e ↦ rw (add_refs, e) (add_refs-append xs ys refs)
    | inr (r, e) ↦
        rw (add_refs, e)
          (add_refs-append xs ys (insert (ref_key r.0 r.1) (l.file_id, l.file_source) refs))
  ]

  -- All locations of the partition, in the order of the listing.
  abbrev pub all_of : Bytes → Locations J → List (FileLocation J)
  all_of p s = matched p (page_query 0) s

  list-page :
      (p : Bytes) (offset : ℕ) (s : Locations J)
      → Location.list p (page_query offset) s
        ≡ ok (record { records = take 500 (drop offset (all_of p s)); total = length (all_of p s) })
  unfolding Location.list matched
  list-page p offset s =
      let up : is_neg (pos offset) ≡ false = ground arith in rw (Location.list, up) refl

  refs_from-all :
      (fuel : ℕ) (p : Bytes) (offset : ℕ) (refs : Refs) (s : Locations J)
      → offset ≤ length (all_of p s)
      → length (all_of p s) < fuel + offset
      → refs_from fuel p offset refs s ≡ ok (add_refs (drop offset (all_of p s)) refs)
  unfolding refs_from
  refs_from-all zero p offset refs s k h = absurd (omega (arith, k, h))
  refs_from-all (suc fuel) p offset refs s k h =
      let found = all_of p s in
      let page = take 500 (drop offset found) in
      let next = offset + length page in
      let joined = page-drop 500 offset next found refl in
      let count = length-take 500 (drop offset found) in
      let rest = length-drop offset found in
      elim (Bool-cases (leb (length page) 0 || leb (length found) next)) [
        | inl stop ↦
            let nothing = last-page 500 offset found (omega arith) stop in
            rw (refs_from, list-page p offset s, stop)
              (ap (λ ls. ok (add_refs ls refs))
                (sym (append-nil page) ∙ ap (λ ys. page ++ ys) (sym nothing) ∙ joined))
        | inr more ↦
            rw (refs_from, list-page p offset s, more)
              (refs_from-all fuel p next (add_refs page refs) s (ground (arith, count, rest))
                  (ground (arith, count, rest))
                ∙ ap (λ r. ok r) (sym (add_refs-append page (drop next found) refs))
                ∙ ap (λ ls. ok (add_refs ls refs)) joined)
      ]

  -- Whether the location has its object there.
  abbrev pub refers : Bytes → Bytes → FileLocation J → Bool
  refers c k l = elim (x.physical l.extra) [
    | none ↦ false
    | some (c', k') ↦ bytes_eqb c' c && bytes_eqb k' k
  ]

  kept_ref :
      (key : Bytes) (ls : List (FileLocation J)) (refs : Refs)
      → has_value (lookup key refs) ≡ true
      → has_value (lookup key (add_refs ls refs)) ≡ true
  unfolding add_refs
  kept_ref key [] refs h = h
  kept_ref key (l ∷ ls) refs h = elim (Option-cases (x.physical l.extra)) [
    | inl e ↦ rw (add_refs, e) (kept_ref key ls refs h)
    | inr (r, e) ↦
        rw (add_refs, e)
          (kept_ref key ls (insert (ref_key r.0 r.1) (l.file_id, l.file_source) refs) (
            ground (arith, h, lookup-insert (ref_key r.0 r.1) key (l.file_id, l.file_source) refs)))
  ]

  pub added_ref :
      (c k : Bytes) (ls : List (FileLocation J)) (refs : Refs)
      → any (refers c k) ls ≡ true
      → has_value (lookup (ref_key c k) (add_refs ls refs)) ≡ true
  unfolding add_refs
  added_ref c k [] refs h = absurd cc
  added_ref c k (l ∷ ls) refs h = elim (Option-cases (x.physical l.extra)) [
    | inl e ↦ rw (add_refs, e) (added_ref c k ls refs (rw (refers, e) at h))
    | inr ((c', k'), e) ↦
        let refs' = insert (ref_key c' k') (l.file_id, l.file_source) refs in
        elim (Bool-cases (bytes_eqb c' c && bytes_eqb k' k)) [
          | inl same ↦
              rw (add_refs, e)
                (kept_ref (ref_key c k) ls refs' (
                  ground (
                    arith,
                    same,
                    bytes_eqb_iff c' c,
                    bytes_eqb_iff k' k,
                    bytes_eqb_iff (ref_key c k) (ref_key c k),
                    lookup-insert (ref_key c' k') (ref_key c k) (l.file_id, l.file_source) refs,
                  )))
          | inr other ↦ rw (add_refs, e) (added_ref c k ls refs' (rw (refers, e, other) at h))
        ]
  ]

  all-matches : (l : FileLocation J) → matches (page_query 0) l ≡ true
  all-matches l = refl

  pub found_ref :
      (p f c k : Bytes) (s : Locations J) (l : FileLocation J)
      → find p f s ≡ ok l
      → x.physical l.extra ≡ some (c, k)
      → any (refers c k) (all_of p s) ≡ true
  unfolding find matched lookup_in
  found_ref p f c k s l h e =
      let m = bucket p s.by_id in
      let here : refers c k l ≡ true = ground (arith, e, bytes_eqb_iff c c, bytes_eqb_iff k k) in
      elim (Option-cases (lookup f m)) [
        | inl n ↦ absurd (let h' = rw (find, lookup_in, n) at h in cc)
        | inr (a, n) ↦
            let h' = rw (find, lookup_in, n) at h in
            let same : a ≡ l = cc in
            any-sort (refers c k) earlier (values_where (λ _ o. matches (page_query 0) o) m)
            ∙ any-values_where (refers c k) (λ _ o. matches (page_query 0) o) f a m n refl
                (rw same here)
      ]

  pub referenced_refs-all :
      (p : Bytes) (s : Locations J) → referenced_refs p s ≡ ok (add_refs (all_of p s) [])
  unfolding referenced_refs matched size
  referenced_refs-all p s = refs_from-all (suc (size p s)) p 0 [] s (omega arith) (
      omega (
        arith,
        length-sort earlier (values_where (λ _ l. matches (page_query 0) l) (bucket p s.by_id)),
        length-values_where (λ _ l. matches (page_query 0) l) (bucket p s.by_id),
      ))
