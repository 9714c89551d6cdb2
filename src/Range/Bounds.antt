-- ===== src/Range/Bounds.antt =====
-- src/common/bytes/bytes.cpp: what holds of every answer of `ParseRangeHeader`.
use fssvrcpp.Prelude.{
  ℕ, ◌+◌, ◌≤◌, Bool, true, false, ◌&&◌, not, List, [], ◌∷◌, ◌++◌, ◌≡◌, refl, arith, ltb, leb, ◌==◌,
  Bool-cases, Option-cases, inl, inr, ◌⊎◌, ap, sym, ◌∙◌, length, length-append, all, break_at, map,
}
use fssvrcpp.Prelude.Bytes.{Bytes, is_empty, bytes_eqb, codes}
use fssvrcpp.Prelude.Int.{pos}
use fssvrcpp.Range.{
  ByteRange, RangeStatus, RangeResult, absent, single, multiple, unsatisfiable, malformed, Spec,
  invalid, beyond, within, suffix_range, open_range, closed_range, parse_bounds, parse_spec, pieces,
  scan, parse_set, parse_range_header, parse_uint64, trim, finish, max_ranges, to_lower,
}

-- A range of bytes that a content of `t` bytes has.
abbrev pub fits : ℕ → ByteRange → Bool
fits t r = leb r.first r.last && ltb r.last t

-- How many ranges an answer of a status has.
abbrev pub agrees : RangeStatus → ℕ → Bool
agrees absent n = n == 0
agrees single n = n == 1
agrees multiple n = leb 2 n
agrees unsatisfiable n = n == 0
agrees malformed n = n == 0

abbrev pub is_sound : ℕ → RangeResult → Bool
is_sound t out =
    all (fits t) out.ranges
    && (leb (length out.ranges) max_ranges && agrees out.status (length out.ranges))

abbrev spec_fits : ℕ → Spec → Bool
spec_fits t invalid = true
spec_fits t beyond = true
spec_fits t (within r) = fits t r

suffix_range-fits : (t n : ℕ) → spec_fits t (suffix_range (pos t) n) ≡ true
unfolding suffix_range
suffix_range-fits t n = ground arith

open_range-fits : (t n : ℕ) → spec_fits t (open_range (pos t) n) ≡ true
unfolding open_range
open_range-fits t n = ground arith

closed_range-fits : (t n m : ℕ) → spec_fits t (closed_range (pos t) n m) ≡ true
unfolding closed_range
closed_range-fits t n m = ground arith

parse_bounds-fits : (t : ℕ) (xs ys : Bytes) → spec_fits t (parse_bounds (pos t) xs ys) ≡ true
unfolding parse_bounds
parse_bounds-fits t xs ys = elim (Bool-cases (is_empty xs)) [
  | inl front ↦ elim (Option-cases (parse_uint64 ys)) [
    | inl bad ↦ rw (front, bad) (ground arith)
    | inr (n, good) ↦ rw (front, good) (ground (arith, suffix_range-fits t n))
  ]
  | inr front ↦ elim (Option-cases (parse_uint64 xs)) [
    | inl bad ↦ rw (front, bad) refl
    | inr (n, good) ↦ elim (Option-cases (parse_uint64 ys)) [
      | inl bad ↦ rw (front, good, bad) (ground (arith, open_range-fits t n))
      | inr (m, fine) ↦
          rw (front, good, fine) (ground (arith, open_range-fits t n, closed_range-fits t n m))
    ]
  ]
]

parse_spec-fits : (t : ℕ) (cs : Bytes) → spec_fits t (parse_spec (pos t) cs) ≡ true
unfolding parse_spec
parse_spec-fits t cs = elim (Option-cases (break_at b'-' cs)) [
  | inl e ↦ rw (parse_spec, e) refl
  | inr ((before, after), e) ↦ rw (parse_spec, e) (parse_bounds-fits t (trim before) (trim after))
]

all-snoc :
    (t : ℕ) (rs : List ByteRange) (r : ByteRange)
    → all (fits t) rs ≡ true
    → fits t r ≡ true
    → all (fits t) (rs ++ (r ∷ [])) ≡ true
all-snoc t [] r h k = ground arith
all-snoc t (x ∷ xs) r h k = ground (arith, all-snoc t xs r)

finish-is_sound :
    (t : ℕ) (rs : List ByteRange) (misses : ℕ)
    → all (fits t) rs ≡ true
    → length rs ≤ max_ranges
    → is_sound t (finish rs misses) ≡ true
finish-is_sound t [] misses h k = ground arith
finish-is_sound t (r ∷ []) misses h k = ground arith
finish-is_sound t (r ∷ q ∷ rs) misses h k = ground arith

abbrev loop_invariant : ℕ → List ByteRange → ℕ → Bool
loop_invariant t rs specs = all (fits t) rs && (leb (length rs) specs && leb specs max_ranges)

loop_invariant-within :
    (t : ℕ) (rs : List ByteRange) (specs : ℕ) (r : ByteRange)
    → loop_invariant t rs specs ≡ true
    → ltb max_ranges (specs + 1) ≡ false
    → fits t r ≡ true
    → loop_invariant t (rs ++ (r ∷ [])) (specs + 1) ≡ true
loop_invariant-within t rs specs r h few k =
    ground (arith, all-snoc t rs r, length-append rs (r ∷ []))

Spec-cases : (s : Spec) → (s ≡ invalid) ⊎ ((s ≡ beyond) ⊎ ((r : ByteRange) × (s ≡ within r)))
Spec-cases invalid = inl refl
Spec-cases beyond = inr (inl refl)
Spec-cases (within r) = inr (inr (r, refl))

spec-within :
    (t : ℕ) (s : Spec) (r : ByteRange) → s ≡ within r → spec_fits t s ≡ true → fits t r ≡ true
spec-within t s r e h = ap (spec_fits t) (sym e) ∙ h

scan-is_sound :
    (t : ℕ) (ps : List (Bytes × Bool)) (rs : List ByteRange) (misses specs : ℕ)
    → loop_invariant t rs specs ≡ true
    → is_sound t (scan (pos t) ps rs misses specs) ≡ true
unfolding scan
scan-is_sound t [] rs misses specs h = finish-is_sound t rs misses (ground arith) (ground arith)
scan-is_sound t ((piece, ended) ∷ rest) rs misses specs h =
    elim (Bool-cases (is_empty (trim piece))) [
      | inl blank ↦ elim (Bool-cases (specs == 0 && not ended)) [
        | inl alone ↦ rw (scan, blank, alone) refl
        | inr skipped ↦ rw (scan, blank, skipped) (scan-is_sound t rest rs misses specs h)
      ]
      | inr text ↦ elim (Bool-cases (ltb max_ranges (specs + 1))) [
        | inl many ↦ rw (scan, text, many) refl
        | inr few ↦ elim (Spec-cases (parse_spec (pos t) (trim piece))) [
          | inl bad ↦ rw (scan, text, few, bad) refl
          | inr (inl missed) ↦
              rw (scan, text, few, missed)
                (scan-is_sound t rest rs (misses + 1) (specs + 1) (ground arith))
          | inr (inr (r, found)) ↦
              let fitting =
                spec-within t (parse_spec (pos t) (trim piece)) r found
                  (parse_spec-fits t (trim piece)) in
              rw (scan, text, few, found)
                (scan-is_sound t rest (rs ++ (r ∷ [])) misses (specs + 1)
                  (loop_invariant-within t rs specs r h few fitting))
        ]
      ]
    ]

parse_set-is_sound : (t : ℕ) (set : Bytes) → is_sound t (parse_set (pos t) set) ≡ true
unfolding parse_set
parse_set-is_sound t set = elim (Bool-cases (is_empty set)) [
  | inl e ↦ rw (parse_set, e) refl
  | inr e ↦ rw (parse_set, e) (scan-is_sound t (pieces set) [] 0 0 refl)
]

-- Whatever the header, where the size of the content is known, every range of the answer has its
-- first byte at or before its last and its last within the content, there are at most 32 ranges,
-- and the status says how many: one if single, two or more if multiple, and none otherwise.
pub parse_range_header-is_sound :
    (header : Bytes) (t : ℕ) → is_sound t (parse_range_header header (pos t)) ≡ true
unfolding parse_range_header
parse_range_header-is_sound header t = elim (Bool-cases (is_empty (trim header))) [
  | inl e ↦ rw (parse_range_header, e) refl
  | inr e ↦ elim (Option-cases (break_at b'=' (trim header))) [
    | inl f ↦ rw (parse_range_header, e, f) refl
    | inr ((unit, set), f) ↦
        elim (Bool-cases (bytes_eqb (map to_lower (trim unit)) (codes "bytes"))) [
          | inl g ↦ rw (parse_range_header, e, f, g) (parse_set-is_sound t (trim set))
          | inr g ↦ rw (parse_range_header, e, f, g) refl
        ]
  ]
]
