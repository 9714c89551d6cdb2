-- ===== src/Streams.antt =====
-- src/common/bytes/bytes.cpp: sources of bytes. A source is a record of its operations on its own
-- state; a read returns the bytes that it puts into the buffer, none at the end.
pub mod Limits
use fssvrcpp.Errors.{Result, ok, err, invalid_argument}
use fssvrcpp.Prelude.{
  ℕ, zero, suc, ◌+◌, ◌-◌, ◌*◌, Bool, true, false, ◌&&◌, not, List, [], ◌∷◌, ◌++◌, Option, none,
  some, ltb, leb, if◌then◌else◌, length, take, drop, min,
}
use fssvrcpp.Prelude.Bytes.{Bytes, is_empty}
use fssvrcpp.Prelude.Int.{ℤ, pos, pos_part, is_neg, is_nonpos, ltb_ℤ, eqb_ℤ}

pub record ByteSource (S : Type 0) : Type 0 where
  pub read : ℕ → S → Result Bytes × S
  pub size : S → Option ℤ

pub record StringSource : Type 0 where
  pub content : Bytes
  pub position : ℕ

unfoldable pub read_string : ℕ → StringSource → Result Bytes × StringSource
read_string capacity s =
    let n = min capacity (length s.content - s.position) in
    (ok (take n (drop s.position s.content)), record s { position = s.position + n })

unfoldable pub seek_string : ℤ → StringSource → Result (Unit {0}) × StringSource
seek_string offset s =
    if is_neg offset
    then (err invalid_argument, s)
    else if ltb (length s.content) (pos_part offset)
    then (err invalid_argument, s)
    else (ok tt, record s { position = pos_part offset })

abbrev pub string_source : ByteSource StringSource
string_source = record { read = read_string; size = λ s. some (pos (length s.content)) }

-- `LimitedSource`; a limit that is not positive is none.
pub record LimitedSource (S : Type 0) : Type 0 where
  pub inner : S
  pub limit : ℤ
  pub count : ℕ
  pub exceeded : Bool

-- The buffer of `ReadAll`.
abbrev pub buffer_size : ℕ
buffer_size = 16 * 1024

module _ {S : Type 0} (source : ByteSource S) where
  abbrev read_through : LimitedSource S → Result Bytes × S → Result Bytes × LimitedSource S
  read_through s (ok chunk, inner) =
      (ok chunk, record s { inner = inner; count = s.count + length chunk })
  read_through s (err e, inner) = (err e, record s { inner = inner })

  -- The look behind the limit, at one byte.
  abbrev probe : LimitedSource S → Result Bytes × S → Result Bytes × LimitedSource S
  probe s (ok [], inner) = (ok [], record s { inner = inner })
  probe s (ok (c ∷ cs), inner) = (err invalid_argument, record s { inner = inner; exceeded = true })
  probe s (err e, inner) = (err e, record s { inner = inner })

  unfoldable pub read_limited : ℕ → LimitedSource S → Result Bytes × LimitedSource S
  read_limited capacity s =
      let left = pos_part s.limit - s.count in
      if s.exceeded
      then (err invalid_argument, s)
      else if is_nonpos s.limit
      then read_through s (source.read capacity s.inner)
      else if leb (pos_part s.limit) s.count
      then probe s (source.read 1 s.inner)
      else read_through s (source.read (min capacity left) s.inner)

  unfoldable pub size_limited : LimitedSource S → Option ℤ
  size_limited s = elim (source.size s.inner) [
    | none ↦ none
    | some n ↦ if not (is_nonpos s.limit) && ltb_ℤ s.limit n then none else some n
  ]

  abbrev pub limited_source : ByteSource (LimitedSource S)
  limited_source = record { read = read_limited; size = size_limited }

  -- The loop of `ReadAll`, with fuel; none if that runs out.
  unfoldable pub read_loop : ℕ → ℕ → Bytes → S → Option (Result Bytes × S)
  read_loop zero max_bytes out s = none
  read_loop (suc fuel) max_bytes out s =
      let r = source.read buffer_size s in
      elim r.0 [
        | err e ↦ some (err e, r.1)
        | ok chunk ↦ elim chunk [
          | [] ↦ some (ok out, r.1)
          | c ∷ cs ↦ elim (ltb max_bytes (length out + length (c ∷ cs))) [
            | true ↦ some (err invalid_argument, r.1)
            | false ↦ read_loop fuel max_bytes (out ++ (c ∷ cs)) r.1
          ]
        ]
      ]

  abbrev is_too_long : ℕ → Option ℤ → Bool
  is_too_long max_bytes none = false
  is_too_long max_bytes (some n) = not (is_neg n) && ltb max_bytes (pos_part n)

  unfoldable pub read_all : ℕ → ℕ → S → Option (Result Bytes × S)
  unfolding read_loop
  read_all fuel max_bytes s =
      if is_too_long max_bytes (source.size s)
      then some (err invalid_argument, s)
      else read_loop fuel max_bytes [] s

-- `VerifyConsumed`
unfoldable pub verify_consumed : {S : Type 0} → ℤ → LimitedSource S → Result (Unit {0})
verify_consumed expected s = if eqb_ℤ (pos s.count) expected then ok tt else err invalid_argument
