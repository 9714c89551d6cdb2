-- ===== src/Kind/Accepted.antt =====
-- src/app/services/kind_validator.cpp: the kinds that are accepted.
use fssvrcpp.Errors.{ok}
use fssvrcpp.Kind.{
  Part, one, many, matches, is_kind_char, is_colon, version_parts, KindParts, matches_syntax,
  check_parts, validate,
}
use fssvrcpp.ObjectKey.{split}
use fssvrcpp.ObjectKey.Segments.{differs, split-append, split-alone, all-implies}
use fssvrcpp.Prelude.{
  ℕ, true, false, not, ◌&&◌, List, [], ◌∷◌, ◌++◌, all, ◌≡◌, ◌↔◌, refl, sym, ap, ◌∙◌, arith, inl,
  inr, Bool-cases,
}
use fssvrcpp.Prelude.Bytes.{Bytes, codes, is_empty, bytes_eqb_iff}

-- The parts with colons between them.
unfoldable pub kind_of : KindParts → Bytes
kind_of k = k.partition ++ (b':' ∷ (k.source ++ (b':' ∷ (k.entity ++ (b':' ∷ k.version)))))

-- What the parts of an accepted kind are.
pub record IsKind (k : KindParts) : Type 0 where
  pub named : is_empty k.partition ≡ false
  pub partition : all is_kind_char k.partition ≡ true
  pub source : k.source ≡ codes "wks"
  pub entity : k.entity ≡ codes "dataset--File.Generic"
  pub version : matches version_parts k.version ≡ true
  pub whole : all (differs b':') k.version ≡ true

-- A repetition of kind characters in front of a colon reaches to the first colon.
matches-segment :
    (parts : List Part) (xs ys : Bytes)
    → all (differs b':') xs ≡ true
    → matches (many is_kind_char ∷ one is_colon ∷ parts) (xs ++ (b':' ∷ ys))
      ≡ (not (is_empty xs) && (all is_kind_char xs && matches parts ys))
unfolding matches
matches-segment parts [] ys h = refl
matches-segment parts (x ∷ []) ys h = ground (arith, h)
matches-segment parts (x ∷ y ∷ xs) ys h = ground (arith, h, matches-segment parts (y ∷ xs) ys)

-- Every text is the join of its segments.
joined : Bytes × List Bytes → Bytes
joined (front, []) = front
joined (front, next ∷ more) = front ++ (b':' ∷ joined (next, more))

joined-cons :
    (c : ℕ) (front : Bytes) (others : List Bytes)
    → joined (c ∷ front, others) ≡ c ∷ joined (front, others)
unfolding joined
joined-cons c front [] = refl
joined-cons c front (next ∷ more) = refl

joined-split : (text : Bytes) → joined (split b':' text) ≡ text
unfolding split joined
joined-split [] = refl
joined-split (c ∷ cs) =
    let s = split b':' cs in ground (arith, joined-split cs, joined-cons c s.0 s.1)

split-differs :
    (text : Bytes)
    → (all (differs b':') (split b':' text).0 ≡ true)
      × (all (all (differs b':')) (split b':' text).1 ≡ true)
unfolding split
split-differs [] = (refl, refl)
split-differs (c ∷ cs) = ground (arith, split-differs cs)

abbrev from_entity : List Part
from_entity = many is_kind_char ∷ one is_colon ∷ version_parts

abbrev from_source : List Part
from_source = many is_kind_char ∷ one is_colon ∷ from_entity

matches_syntax-kind_of :
    (k : KindParts)
    → all (differs b':') k.partition ≡ true
    → all (differs b':') k.source ≡ true
    → all (differs b':') k.entity ≡ true
    → matches_syntax (kind_of k) ≡ (
        not (is_empty k.partition)
        && (all is_kind_char k.partition
            && (not (is_empty k.source)
                && (all is_kind_char k.source
                    && (not (is_empty k.entity)
                        && (all is_kind_char k.entity && matches version_parts k.version))))))
unfolding matches_syntax kind_of
matches_syntax-kind_of k hp hs he =
    matches-segment from_source k.partition (k.source ++ (b':' ∷ (k.entity ++ (b':' ∷ k.version))))
      hp
    ∙ ap (λ b. not (is_empty k.partition) && (all is_kind_char k.partition && b))
        (matches-segment from_entity k.source (k.entity ++ (b':' ∷ k.version)) hs
          ∙ ap (λ b. not (is_empty k.source) && (all is_kind_char k.source && b))
              (matches-segment version_parts k.entity k.version he))

check_parts-ok :
    (front : Bytes) (others : List Bytes) (k : KindParts)
    → check_parts (front, others) ≡ ok k
    → (front ≡ k.partition)
      × (others ≡ k.source ∷ k.entity ∷ k.version ∷ [])
      × (k.source ≡ codes "wks")
      × (k.entity ≡ codes "dataset--File.Generic")
unfolding check_parts
check_parts-ok front [] k h = absurd cc
check_parts-ok front (s ∷ []) k h = absurd cc
check_parts-ok front (s ∷ e ∷ []) k h = absurd cc
check_parts-ok front (s ∷ e ∷ v ∷ []) k h =
    let ws = bytes_eqb_iff s (codes "wks") in
    let fe = bytes_eqb_iff e (codes "dataset--File.Generic") in
    (ground (arith, h), ground (arith, h), ground (arith, h, ws), ground (arith, h, fe))
check_parts-ok front (s ∷ e ∷ v ∷ x ∷ xs) k h = absurd cc

char-differs : (xs : Bytes) → all is_kind_char xs ≡ true → all (differs b':') xs ≡ true
char-differs xs h = all-implies is_kind_char (differs b':') xs (λ c t. ground (arith, t)) h

kind_of-joined :
    (k : KindParts) → joined (k.partition, k.source ∷ k.entity ∷ k.version ∷ []) ≡ kind_of k
unfolding joined kind_of
kind_of-joined k = refl

split-kind_of :
    (k : KindParts)
    → all (differs b':') k.partition ≡ true
    → all (differs b':') k.source ≡ true
    → all (differs b':') k.entity ≡ true
    → all (differs b':') k.version ≡ true
    → split b':' (kind_of k) ≡ (k.partition, k.source ∷ k.entity ∷ k.version ∷ [])
unfolding kind_of
split-kind_of k hp hs he hv =
    rw
      (
        split-append b':' k.partition (k.source ++ (b':' ∷ (k.entity ++ (b':' ∷ k.version)))) hp,
        split-append b':' k.source (k.entity ++ (b':' ∷ k.version)) hs,
        split-append b':' k.entity k.version he,
        split-alone b':' k.version hv,
      )
      refl

check_parts-of :
    (k : KindParts)
    → k.source ≡ codes "wks"
    → k.entity ≡ codes "dataset--File.Generic"
    → check_parts (k.partition, k.source ∷ k.entity ∷ k.version ∷ []) ≡ ok k
unfolding check_parts
check_parts-of k s e =
    rw
      (
        (bytes_eqb_iff k.source (codes "wks")).1 s,
        (bytes_eqb_iff k.entity (codes "dataset--File.Generic")).1 e,
      )
      refl

validate_sound :
    (kind : Bytes) (k : KindParts) → validate kind ≡ ok k → IsKind k × (kind ≡ kind_of k)
unfolding validate
validate_sound kind k h = elim (Bool-cases (matches_syntax kind)) [
  | inr bad ↦ absurd (let h' = rw (validate, bad) at h in cc)
  | inl good ↦
      let s = split b':' kind in
      let (front, others, source, entity) = check_parts-ok s.0 s.1 k (rw (validate, good) at h) in
      let d = split-differs kind in
      let whole : all (all (differs b':')) (k.source ∷ k.entity ∷ k.version ∷ []) ≡ true =
        ap (all (all (differs b':'))) (sym others) ∙ d.1 in
      let e : kind ≡ kind_of k =
        sym (joined-split kind) ∙ ((λ i. joined (front i, others i)) ∙ kind_of-joined k) in
      let m =
        matches_syntax-kind_of k (ap (all (differs b':')) (sym front) ∙ d.0) (ground (arith, whole))
          (ground (arith, whole)) in
      let t = sym m ∙ (ap matches_syntax (sym e) ∙ good) in
      (
        record {
          named = ground (arith, t);
          partition = ground (arith, t);
          source = source;
          entity = entity;
          version = ground (arith, t);
          whole = ground (arith, whole);
        },
        e,
      )
]

validate_complete : (k : KindParts) → IsKind k → validate (kind_of k) ≡ ok k
unfolding validate
validate_complete k v =
    let hp = char-differs k.partition v.partition in
    let hs : all (differs b':') k.source ≡ true = rw v.source refl in
    let he : all (differs b':') k.entity ≡ true = rw v.entity refl in
    let ks : all is_kind_char k.source ≡ true = rw v.source refl in
    let ke : all is_kind_char k.entity ≡ true = rw v.entity refl in
    let ns : is_empty k.source ≡ false = rw v.source refl in
    let ne : is_empty k.entity ≡ false = rw v.entity refl in
    let m : matches_syntax (kind_of k) ≡ true =
      matches_syntax-kind_of k hp hs he
      ∙ rw (v.named, v.partition, ns, ks, ne, ke, v.version) refl in
    let parts = split-kind_of k hp hs he v.whole in
    let final = check_parts-of k v.source v.entity in rw (validate, m, parts) final

-- A kind is accepted exactly if it is made of four parts with colons between them: a partition of
-- one or more letters, digits, underscores, dashes and dots; `wks`; `dataset--File.Generic`; and a
-- version without colons that matches its part of the pattern. The parts are what is returned.
pub validate_iff :
    (kind : Bytes) (k : KindParts) → (validate kind ≡ ok k) ↔ (IsKind k × (kind ≡ kind_of k))
validate_iff kind k = (validate_sound kind k, λ h. ap validate h.1 ∙ validate_complete k h.0)
