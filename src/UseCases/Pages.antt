-- ===== src/UseCases/Pages.antt =====
-- src/app/usecases/usecases.cpp: the pages of `GetFileList`, one after the other.
use mathlib.Core.List.{map-append}
use fssvrcpp.Errors.{Result, ok, err}
use fssvrcpp.Location.{LocationPage, list, matched}
use fssvrcpp.Prelude.{
  ℕ, ◌⊎◌, zero, suc, ◌+◌, ◌*◌, ◌%◌, ◌^◌, ◌<◌, ◌==◌, true, false, List, [], ◌∷◌, ◌++◌, map, length,
  take, drop, ◌≡◌, refl, sym, ap, ◌∙◌, arith, inl, inr, Bool-cases, take-nil,
}
use fssvrcpp.Prelude.Int.{pos, is_neg, is_nonpos}
use fssvrcpp.UseCases.Addresses.{
  FileListRequest, FileListEntry, FileListResult, editors, times_int32, query_of, is_inverted,
  entry_of, answer_of, get_file_list,
}
use fssvrcpp.UseCases.Ports.{CallerContext, Ports, authorize_caller}
use fssvrcpp.World.{World, Extra, proceed}

zero-add : (b : ℕ) → 0 + b ≡ b
zero-add b = omega arith

suc_plus : (a b : ℕ) → suc a + b ≡ suc (a + b)
suc_plus a b = omega arith

List-cases : {A : Type 0} (xs : List A) → (xs ≡ []) ⊎ ((y : A) × (ys : List A) × (xs ≡ y ∷ ys))
List-cases [] = inl refl
List-cases (y ∷ ys) = inr (y, ys, refl)

take-drop-nil : {A : Type 0} (a b : ℕ) (xs : List A) → xs ≡ [] → take a (drop b xs) ≡ []
take-drop-nil a zero xs e = rw e (take-nil a)
take-drop-nil a (suc b) xs e = rw e (take-nil a)

nothing_left :
    {A : Type 0} (a b : ℕ) (xs : List A) → length xs == 0 ≡ true → take a (drop b xs) ≡ []
nothing_left a b [] e = take-drop-nil a b [] refl
nothing_left a b (x ∷ xs) e = absurd (ground (arith, e))

take-add {ℓ} :
    {A : Type ℓ} (a b : ℕ) (xs : List A) → take (a + b) xs ≡ take a xs ++ take b (drop a xs)
take-add zero b xs = ap (λ n. take n xs) (zero-add b)
take-add (suc a) b [] = ap (λ n. take n []) (suc_plus a b) ∙ sym (take-nil b)
take-add (suc a) b (x ∷ xs) =
    ap (λ n. take n (x ∷ xs)) (suc_plus a b) ∙ ap (λ l. x ∷ l) (take-add a b xs)

-- The entries of an answer; an error has none.
abbrev pub content_of : {S : Type 0} → Result FileListResult × S → List FileListEntry
content_of (ok r, s) = r.content
content_of (err e, s) = []

times_int32-pos : (n m : ℕ) → n * m < 2 ^ 31 → times_int32 (pos n) (pos m) ≡ pos (n * m)
unfolding times_int32
times_int32-pos n m h = let e : n * m % 2 ^ 32 ≡ n * m = omega arith in rw e (ground (arith, h))

content_of-answer :
    {R J : Type 0} ⦃x : Extra J⦄ (ports : Ports R) (q : FileListRequest) (page : LocationPage J)
    (w : World R J)
    → ports.audit ≡ ok tt
    → (page.total == 0 ≡ true → page.records ≡ [])
    → content_of
        (proceed (answer_of q page, w) λ answer w. proceed (ports.audit, w) λ _ w. (ok answer, w))
      ≡ map entry_of page.records
unfolding proceed answer_of
content_of-answer ports q page w audited none_left = elim (Bool-cases (page.total == 0)) [
  | inl nothing ↦ rw (nothing, none_left nothing) refl
  | inr some_left ↦ elim (List-cases page.records) [
    | inl bare ↦ rw (some_left, bare) refl
    | inr (y, ys, more) ↦
        let filled : (suc (length ys) == 0) ≡ false = ground arith in
        rw (some_left, more, audited, filled) refl
  ]
]

module _ {R J : Type 0} ⦃x : Extra J⦄ (ports : Ports R) (caller : CallerContext)
    (q : FileListRequest) (w : World R J) where
  abbrev page : ℕ → Result FileListResult × World R J
  page k = get_file_list ports caller (record q { page_num = pos k }) w

  -- The entries of the pages below a number.
  unfoldable pub collected : ℕ → List FileListEntry
  collected zero = []
  collected (suc n) = collected n ++ content_of (page n)

  content_of-page :
      (m k : ℕ)
      → authorize_caller ports caller editors true ≡ ok tt
      → ports.audit ≡ ok tt
      → is_inverted q ≡ false
      → q.items ≡ pos (suc m)
      → k * suc m < 2 ^ 31
      → content_of (page k)
        ≡ map entry_of
            (take (suc m) (drop (k * suc m) (matched caller.partition (query_of q) w.locations)))
  unfolding get_file_list list proceed matched
  content_of-page m k may audited straight items fits =
      let found = matched caller.partition (query_of q) w.locations in
      let some_items : is_nonpos (pos (suc m)) ≡ false = ground arith in
      let some_page : is_neg (pos k) ≡ false = ground arith in
      let some_offset : is_neg (pos (k * suc m)) ≡ false = ground arith in
      rw
        (
          get_file_list,
          may,
          items,
          straight,
          times_int32-pos k (suc m) fits,
          some_items,
          some_page,
          some_offset,
        )
        (content_of-answer ports (record q { page_num = pos k; items = pos (suc m) })
          (record { records = take (suc m) (drop (k * suc m) found); total = length found }) w
          audited (nothing_left (suc m) (k * suc m) found))

  -- The first pages of a list hold the locations that match, in their order, up to as many as fit on
  -- those pages: none is missing and none is there twice. It is taken that the caller may ask and is
  -- audited, that the pages are not empty and the times in order, and that the machine's product
  -- of page and size does not overflow.
  pub collected-matched :
      (m n : ℕ)
      → authorize_caller ports caller editors true ≡ ok tt
      → ports.audit ≡ ok tt
      → is_inverted q ≡ false
      → q.items ≡ pos (suc m)
      → n * suc m < 2 ^ 31
      → collected n
        ≡ map entry_of (take (n * suc m) (matched caller.partition (query_of q) w.locations))
  unfolding collected
  collected-matched m zero may audited straight items fits =
      let none_yet : 0 ≡ 0 * suc m = omega arith in
      ap (λ a. map entry_of (take a (matched caller.partition (query_of q) w.locations))) none_yet
  collected-matched m (suc n) may audited straight items fits =
      let found = matched caller.partition (query_of q) w.locations in
      let before = collected-matched m n may audited straight items (omega arith) in
      let last = content_of-page m n may audited straight items (omega arith) in
      (λ i. before i ++ last i)
      ∙ (sym (map-append entry_of (take (n * suc m) found) _)
          ∙ ap (map entry_of)
              (sym (take-add (n * suc m) (suc m) found) ∙ ap (λ a. take a found) (omega arith)))
