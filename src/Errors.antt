-- ===== src/Errors.antt =====
-- src/common/result/result.h and result.cpp: the error kinds and `Result<T>`. An error is its
-- kind; the message and the details, which only logs and response texts read, are left out.
pub mod Contract
pub mod Agreement
pub mod Names
use fssvrcpp.Prelude.{ℕ, ◌≡◌, refl, Bool, ◌==◌, ◌⊎◌, inl, inr}

pub data ErrorKind : Type 0 where
  ok : ErrorKind
  invalid_argument file_source_empty invalid_source_path : ErrorKind
  location_already_exists checksum_mismatch : ErrorKind
  unauthenticated permission_denied storage_access_denied : ErrorKind
  not_found unimplemented internal bad_gateway unavailable : ErrorKind

-- The value of the enumerator.
pub ordinal : ErrorKind → ℕ
ordinal ErrorKind.ok = 0
ordinal invalid_argument = 1
ordinal file_source_empty = 2
ordinal invalid_source_path = 3
ordinal location_already_exists = 4
ordinal checksum_mismatch = 5
ordinal unauthenticated = 6
ordinal permission_denied = 7
ordinal storage_access_denied = 8
ordinal not_found = 9
ordinal unimplemented = 10
ordinal internal = 11
ordinal bad_gateway = 12
ordinal unavailable = 13

unfoldable pub kind_eqb : ErrorKind → ErrorKind → Bool
unfolding ordinal
kind_eqb a b = ordinal a == ordinal b

pub data Result {ℓ} (A : Type ℓ) : Type ℓ where
  ok : A → Result A
  err : ErrorKind → Result A

abbrev pub is_ok {ℓ} : {A : Type ℓ} → Result A → Bool
is_ok (Result.ok a) = Bool.true
is_ok (err e) = Bool.false

pub ok-injective {ℓ} : {A : Type ℓ} {a b : A} → Result.ok a ≡ Result.ok b → a ≡ b
ok-injective h = cc

pub Result-cases {ℓ} :
    {A : Type ℓ} (m : Result A) → ((a : A) × (m ≡ Result.ok a)) ⊎ ((e : ErrorKind) × (m ≡ err e))
Result-cases (Result.ok a) = inl (a, refl)
Result-cases (err e) = inr (e, refl)
