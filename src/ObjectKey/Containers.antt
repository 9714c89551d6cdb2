-- ===== src/ObjectKey/Containers.antt =====
-- src/app/services/object_key_policy.cpp: containers are told apart by partition and by zone.
use mathlib.Core.List.{append_cancel_right}
use fssvrcpp.Domain.{StorageZone, staging, persistent}
use fssvrcpp.Errors.{ok}
use fssvrcpp.ObjectKey.{container_for, validate_container_name, zone_suffix, is_container_char}
use fssvrcpp.Prelude.{
  ℕ, [], ◌∷◌, ◌++◌, map, all, Option, some, get_last?, ◌≡◌, refl, sym, ap, ◌∙◌, arith, Bool-cases,
  inl, inr,
}
use fssvrcpp.Prelude.Bytes.{Bytes, codes, is_empty}
use fssvrcpp.Range.{to_lower}

get_last?-append : (xs ys : Bytes) (y : ℕ) → get_last? (xs ++ (y ∷ ys)) ≡ get_last? (y ∷ ys)
unfolding get_last?
get_last?-append [] ys y = refl
get_last?-append (x ∷ []) ys y = refl
get_last?-append (x ∷ z ∷ xs) ys y = get_last?-append (z ∷ xs) ys y

-- The last characters of the two suffixes.
differ :
    (xs ys : Bytes)
    → xs ++ (b'-' ∷ codes "staging") ≡ ys ++ (b'-' ∷ codes "persistent")
    → ◌≡◌ {A = Option ℕ} (some b'g') (some b't')
unfolding get_last?
differ xs ys e =
    sym (get_last?-append xs (codes "staging") b'-')
    ∙ (ap get_last? e ∙ get_last?-append ys (codes "persistent") b'-')

same_suffix :
    (xs ys : Bytes) (z z' : StorageZone)
    → xs ++ (b'-' ∷ zone_suffix z) ≡ ys ++ (b'-' ∷ zone_suffix z')
    → (z ≡ z') × (xs ≡ ys)
same_suffix xs ys staging staging e =
    (refl, append_cancel_right xs ys (b'-' ∷ zone_suffix staging) e)
same_suffix xs ys staging persistent e = absurd (ground (arith, differ xs ys e))
same_suffix xs ys persistent staging e = absurd (ground (arith, differ ys xs (sym e)))
same_suffix xs ys persistent persistent e =
    (refl, append_cancel_right xs ys (b'-' ∷ zone_suffix persistent) e)

container_for-named :
    (p c : Bytes) (z : StorageZone)
    → container_for p z ≡ ok c
    → map to_lower p ++ (b'-' ∷ zone_suffix z) ≡ c
unfolding container_for validate_container_name
container_for-named p c z h = elim (Bool-cases (is_empty p)) [
  | inl e ↦ absurd (ground (arith, e, h))
  | inr e ↦ elim (Bool-cases (all is_container_char p)) [
    | inl a ↦ ground (arith, e, a, h)
    | inr a ↦ absurd (ground (arith, e, a, h))
  ]
]

-- Two partitions and zones share a container by default only if the zones are the same and the
-- partitions differ at most in the case of their letters.
pub container_for-container_for :
    (p p' c : Bytes) (z z' : StorageZone)
    → container_for p z ≡ ok c
    → container_for p' z' ≡ ok c
    → (z ≡ z') × (map to_lower p ≡ map to_lower p')
container_for-container_for p p' c z z' h h' =
    same_suffix (map to_lower p) (map to_lower p') z z'
      (container_for-named p c z h ∙ sym (container_for-named p' c z' h'))
