-- ===== src/Streams/Limits.antt =====
-- src/common/bytes/bytes.cpp: a body behind a limit is read whole or refused.
use mathlib.Core.List.{append-nil, append_assoc}
use fssvrcpp.Errors.{Result, ok, err, invalid_argument}
use fssvrcpp.Prelude.{
  ℕ, zero, suc, ◌+◌, ◌-◌, ◌≤◌, ◌<◌, false, [], ◌∷◌, ◌++◌, Option, none, some, ltb, leb,
  if◌then◌else◌, length, length-append, take, drop, take-append-drop, min, ◌≡◌, refl, sym, ap, ◌∙◌,
  ◌⊎◌, inl, inr, arith, Bool-cases,
}
use fssvrcpp.Prelude.Bytes.{Bytes}
use fssvrcpp.Prelude.Int.{pos}
use fssvrcpp.Streams.{
  StringSource, read_string, string_source, LimitedSource, read_limited, size_limited,
  limited_source, buffer_size, read_loop, read_all,
}

length-take : (n : ℕ) (xs : Bytes) → length (take n xs) ≡ min n (length xs)
length-take zero xs = omega arith
length-take (suc n) [] = omega arith
length-take (suc n) (x ∷ xs) = omega (arith, length-take n xs)

length-drop : (n : ℕ) (xs : Bytes) → length (drop n xs) ≡ length xs - n
length-drop zero xs = omega arith
length-drop (suc n) [] = omega arith
length-drop (suc n) (x ∷ xs) = omega (arith, length-drop n xs)

drop-nil : (n : ℕ) → ◌≡◌ {A = Bytes} (drop n []) []
drop-nil zero = refl
drop-nil (suc n) = refl

drop-drop : (n a k : ℕ) (xs : Bytes) → k ≡ a + n → drop n (drop a xs) ≡ drop k xs
drop-drop n zero k xs e = let same : n ≡ k = omega arith in ap (λ j. drop j xs) same
drop-drop n (suc a) k [] e = drop-nil n ∙ sym (drop-nil k)
drop-drop n (suc a) zero (x ∷ xs) e = absurd (omega arith)
drop-drop n (suc a) (suc k) (x ∷ xs) e = drop-drop n a k xs (omega arith)

Bytes-cases : (xs : Bytes) → (xs ≡ []) ⊎ ((c : ℕ) × (cs : Bytes) × (xs ≡ c ∷ cs))
Bytes-cases [] = inl refl
Bytes-cases (c ∷ cs) = inr (c, cs, refl)

-- A limited source over `content`, of which `a` bytes have been read.
abbrev pub limited_at : Bytes → ℕ → ℕ → LimitedSource StringSource
limited_at content l a = record {
  inner = record { content = content; position = a };
  limit = pos l;
  count = a;
  exceeded = false;
}

abbrev pub outcome : {S : Type 0} → Option (Result Bytes × S) → Option (Result Bytes)
outcome none = none
outcome (some (r, s)) = some r

-- What is read at once in front of the limit.
abbrev portion : Bytes → ℕ → ℕ → Bytes
portion content l a = take (min (min buffer_size (l - a)) (length content - a)) (drop a content)

read_limited-before :
    (content : Bytes) (l a : ℕ)
    → a < l
    → a ≤ length content
    → read_limited string_source buffer_size (limited_at content l a)
      ≡ (ok (portion content l a), limited_at content l (a + length (portion content l a)))
unfolding read_limited read_string
read_limited-before content l a h k = ground (
  arith,
  length-take (min (min buffer_size (l - a)) (length content - a)) (drop a content),
  length-drop a content,
)

-- At the limit: the end if nothing is left, an error otherwise.
read_limited-at :
    (content : Bytes) (l a : ℕ)
    → a ≡ l
    → 0 < l
    → a ≤ length content
    → (read_limited string_source buffer_size (limited_at content l a)).0
      ≡ (if leb (length content) l then ok [] else err invalid_argument)
unfolding read_limited read_string
read_limited-at content l a e p k =
    let count = length-take (min 1 (length content - a)) (drop a content) in
    let rest = length-drop a content in
    elim (Bytes-cases (take (min 1 (length content - a)) (drop a content))) [
      | inl f ↦ ground (arith, f, count, rest, ap length f)
      | inr (c, cs, f) ↦ ground (arith, f, count, rest, ap length f)
    ]

portion-step :
    (content : Bytes) (l a : ℕ)
    → portion content l a ++ drop (a + length (portion content l a)) content ≡ drop a content
portion-step content l a =
    let n = min (min buffer_size (l - a)) (length content - a) in
    let count = length-take n (drop a content) in
    let rest = length-drop a content in
    let k = a + length (portion content l a) in
    ap (λ ys. portion content l a ++ ys)
      (sym (drop-drop n a k content (omega (arith, count, rest))))
    ∙ take-append-drop n (drop a content)

drop-all : (n : ℕ) (xs : Bytes) → length xs ≤ n → ◌≡◌ {A = Bytes} (drop n xs) []
drop-all n xs h = elim (Bytes-cases (drop n xs)) [
  | inl e ↦ e
  | inr (c, cs, e) ↦ absurd (ground (arith, length-drop n xs, ap length e))
]

-- The answer of the loop with `out` read and `rest` left.
abbrev answer : Bytes → ℕ → Bytes → Option (Result Bytes)
answer content l whole = some (if leb (length content) l then ok whole else err invalid_argument)

finished :
    (content out : Bytes) (l a : ℕ)
    → length content ≤ a
    → a ≤ l
    → some (ok out) ≡ answer content l (out ++ drop a content)
finished content out l a h k =
    let none_left = drop-all a content h in rw (none_left, append-nil out) (ground (arith, h, k))

read_loop-limited :
    (content : Bytes) (l max_bytes fuel a : ℕ) (out : Bytes)
    → 0 < l
    → l ≤ max_bytes
    → a ≤ l
    → a ≤ length content
    → length out ≡ a
    → length content < fuel + a
    → outcome (read_loop (limited_source string_source) fuel max_bytes out (limited_at content l a))
      ≡ answer content l (out ++ drop a content)
unfolding read_loop
read_loop-limited content l max_bytes zero a out p m h k e f = absurd (omega arith)
read_loop-limited content l max_bytes (suc fuel) a out p m h k e f = elim (Bool-cases (leb l a)) [
  | inl full ↦
      let looked = read_limited-at content l a (ground arith) p k in
      elim (Bool-cases (leb (length content) l)) [
        | inl whole ↦
            let last = rw whole at looked in
            rw (read_loop, last) (finished content out l a (ground arith) h)
        | inr long ↦ let last = rw long at looked in rw (read_loop, last, long) refl
      ]
  | inr more ↦
      let step = read_limited-before content l a (ground arith) k in
      let count =
        length-take (min (min buffer_size (l - a)) (length content - a)) (drop a content) in
      let rest = length-drop a content in
      elim (Bytes-cases (portion content l a)) [
        | inl nothing ↦
            rw (read_loop, step, nothing)
              (finished content out l a (ground (arith, count, rest, ap length nothing)) h)
        | inr (c, cs, some_read) ↦
            let size = ap length some_read in
            let fits : ltb max_bytes (length out + length (c ∷ cs)) ≡ false =
              ground (arith, count, rest, size) in
            let moved = rw some_read at (ap (λ r. r.1) step) in
            let joined = rw some_read at (portion-step content l a) in
            rw (read_loop, step, some_read, fits, moved)
              (read_loop-limited content l max_bytes fuel (a + length (c ∷ cs)) (out ++ (c ∷ cs)) p
                  m (ground (arith, count, rest, size)) (ground (arith, count, rest, size))
                  (ground (arith, length-append out (c ∷ cs))) (ground arith)
                ∙ ap (answer content l) (
                    append_assoc out (c ∷ cs) (drop (a + length (c ∷ cs)) content)
                    ∙ ap (λ ys. out ++ ys) joined))
      ]
]

-- The body behind a positive limit, read by `ReadAll` from its start with room for the limit and
-- enough fuel: the whole content if it is no longer than the limit, and otherwise an error; never
-- a part of it.
pub read_all-limited_source :
    (content : Bytes) (l max_bytes fuel : ℕ)
    → 0 < l
    → l ≤ max_bytes
    → length content < fuel
    → outcome (read_all (limited_source string_source) fuel max_bytes (limited_at content l 0))
      ≡ some (if leb (length content) l then ok content else err invalid_argument)
unfolding read_all size_limited
read_all-limited_source content l max_bytes fuel p m f =
    let loop =
      read_loop-limited content l max_bytes fuel 0 [] p m (omega arith) (omega arith) (omega arith)
        (omega arith) in
    elim (Bool-cases (leb (length content) l)) [
      | inl whole ↦ ground (arith, loop, whole)
      | inr long ↦ ground (arith, loop, long)
    ]
