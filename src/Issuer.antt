-- ===== src/Issuer.antt =====
-- src/app/services/location_issuer.cpp: `LocationIssuer`, which hands out the addresses that a file
-- is sent to and fetched from, over the repositories and stores in memory. The clock stands still
-- within a call.
pub mod Issuing
pub mod Uploads
pub mod Issued
pub mod Refusals
pub mod Transfers
use fssvrcpp.BlobStore.Calls
use fssvrcpp.BlobStore.Calls.{ensure_container, presign_put, presign_get}
use fssvrcpp.BlobStore.Types.{Blobs, BlobCapabilities, default_put, capabilities}
use fssvrcpp.Domain.{
  StorageZone, StorageDriver, staging, posix, ObjectRef, FileLocation, parse_storage_driver,
}
use fssvrcpp.Errors.{Result, ok, err, internal, invalid_argument, location_already_exists}
use fssvrcpp.Expiry
use fssvrcpp.Expiry.{ExpiryOptions}
use fssvrcpp.Location.{find, save}
use fssvrcpp.ObjectKey.{
  SourcePath, PartitionConfig, container_for, container_for_registered, is_valid_file_id,
  make_file_source, make_posix_key,
}
use fssvrcpp.Prelude.{ℕ, Bool, true, false, not, [], Option, none, some, if◌then◌else◌}
use fssvrcpp.Prelude.Bytes.{Bytes, codes, is_empty}
use fssvrcpp.Prelude.Int.{ℤ, pos, ◌+ℤ◌, ltb_ℤ, is_nonpos}
use fssvrcpp.Transfer.{TransferToken, Json, Codec, encode}
use fssvrcpp.World.{World, Extra, object_ref_from_location, on_store, proceed}

pub record SelfSignedTtlOptions : Type 0 where
  pub default_seconds : ℤ
  pub max_seconds : ℤ

-- `SignedLocation`, without the headers, which the issuer does not read.
pub record SignedLocation : Type 0 where
  pub url : Bytes
  pub method : Bytes
  pub file_source : Bytes
  pub expires_at_epoch_seconds : ℤ
  pub native : Bool

pub record LocationResult : Type 0 where
  pub file_id : Bytes
  pub file_source : Bytes
  pub signed_url : Bytes
  pub driver : Bytes
  pub zone : StorageZone
  pub expires_at_epoch_seconds : ℤ
  pub native_presign : Bool

-- The members of `LocationIssuer`, with what the clock, the generator of ids and the source of
-- nonces answer in one call; `timestamp` is what `FormatTimestamp` makes of the time.
pub record Issuer : Type 0 where
  pub codec : Codec
  pub self_base_url : Bytes
  pub expiry : ExpiryOptions
  pub partitions : Option (Bytes → Result PartitionConfig)
  pub self_signed_ttl : SelfSignedTtlOptions
  pub now_seconds : ℤ
  pub now_millis : ℤ
  pub timestamp : Bytes
  pub new_uuid : Bytes
  pub nonce : Bytes
  pub sha256_hex : Bytes → Bytes

-- `std::min`
abbrev pub min_ℤ : ℤ → ℤ → ℤ
min_ℤ a b = if ltb_ℤ b a then b else a

unfoldable pub apply_self_signed_ttl : Issuer → ℤ → BlobCapabilities → Bool → ℤ
apply_self_signed_ttl i ttl_seconds caps expiry_time_provided =
    let bounded = min_ℤ ttl_seconds i.self_signed_ttl.max_seconds in
    if caps.native_presign
    then ttl_seconds
    else if not expiry_time_provided
    then min_ℤ bounded i.self_signed_ttl.default_seconds
    else bounded

-- `expiry_time.has_value() && !expiry_time->empty()`, also for the id that is asked for.
abbrev pub is_given : Option Bytes → Bool
is_given none = false
is_given (some t) = not (is_empty t)

abbrev method_of : Bool → Bytes
method_of upload = if upload then codes "PUT" else codes "GET"

abbrev op_of : Bool → Bytes
op_of upload = if upload then codes "put" else codes "get"

-- The container of the staging zone.
abbrev pub container_in :
    Option (Bytes → Result PartitionConfig) → Bytes → StorageZone → Result Bytes
container_in none partition zone = container_for partition zone
container_in (some registry) partition zone =
    container_for_registered (registry partition) partition zone

abbrev pub source_path : Issuer → Bytes → Bytes → SourcePath
source_path i user_id file_id = record {
  user_id = user_id;
  epoch_millis = i.now_millis;
  timestamp = i.timestamp;
  file_id = file_id;
}

abbrev pub driver_of : BlobCapabilities → StorageDriver
driver_of caps = elim (parse_storage_driver caps.driver_name) [ none ↦ posix | some d ↦ d ]

module _ {R J : Type 0} where
  -- The file id of an upload: the one asked for, if it is well formed and new.
  unfoldable pub choose_file_id : Issuer → Bytes → Option Bytes → World R J → Result Bytes
  unfolding find is_valid_file_id
  choose_file_id i partition none w = ok i.new_uuid
  choose_file_id i partition (some file_id) w =
      if is_empty file_id
      then ok i.new_uuid
      else if not (is_valid_file_id file_id)
      then err invalid_argument
      else elim (find partition file_id w.locations) [
        | ok l ↦ err location_already_exists
        | err e ↦ ok file_id
      ]

module _ {J : Type 0} ⦃x : Extra J⦄ where
  -- The record of an upload.
  abbrev pub new_location :
      Issuer → BlobCapabilities → Bytes → Bytes → Bytes → ObjectRef → FileLocation J
  new_location i caps user_id file_id file_source ref = record {
    file_id = file_id;
    driver = driver_of caps;
    zone = staging;
    file_source = file_source;
    user_id = user_id;
    signed_url = [];
    created_at_epoch_seconds = i.now_seconds;
    updated_at_epoch_seconds = i.now_seconds;
    extra = x.set_driver_name caps.driver_name (x.set_physical ref.container ref.key x.no_members);
  }

-- The shape of the answer.
unfoldable pub shape :
    {J : Type 0} → Issuer → FileLocation J → BlobCapabilities → ℤ → SignedLocation → LocationResult
shape i location caps ttl_seconds signed = record {
  file_id = location.file_id;
  file_source = location.file_source;
  signed_url = signed.url;
  driver = caps.driver_name;
  zone = location.zone;
  expires_at_epoch_seconds =
      if not (is_nonpos signed.expires_at_epoch_seconds)
      then signed.expires_at_epoch_seconds
      else i.now_seconds +ℤ ttl_seconds;
  native_presign = caps.native_presign;
}

-- The token of an address that the service answers itself.
unfoldable pub token_for :
    {J : Type 0} → Issuer → ObjectRef → FileLocation J → Bytes → ℤ → Bool → TransferToken
token_for i ref location partition ttl_seconds upload = record {
  partition = partition;
  file_id = location.file_id;
  container = ref.container;
  object_key = ref.key;
  zone = location.zone;
  op = op_of upload;
  expires_at_epoch_seconds = i.now_seconds +ℤ ttl_seconds;
  key_id = [];
}

abbrev self_signed :
    {J : Type 0}
    → Issuer
    → FileLocation J
    → TransferToken
    → Bool
    → Result Bytes
    → Result SignedLocation
self_signed i location token upload (err e) = err e
self_signed i location token upload (ok url) = ok (record {
  url = url;
  method = method_of upload;
  file_source = location.file_source;
  expires_at_epoch_seconds = token.expires_at_epoch_seconds;
  native = false;
})

module _ {P R J : Type 0} (json : Json P) where
  -- The presigned location of the store, or the service's own.
  unfoldable pub signed_location :
      Issuer
      → ObjectRef
      → FileLocation J
      → BlobCapabilities
      → Bytes
      → ℤ
      → Bool
      → World R J
      → Result SignedLocation × World R J
  unfolding presign_put presign_get encode token_for
  signed_location i ref location caps partition ttl_seconds upload w =
      let token = token_for i ref location partition ttl_seconds upload in
      let presign = if upload then presign_put else presign_get in
      if caps.native_presign then on_store location.zone presign w else (
        self_signed i location token upload (encode json i.codec i.nonce token i.self_base_url),
        w,
      )

  unfoldable pub sign_and_shape :
      Issuer
      → ObjectRef
      → FileLocation J
      → BlobCapabilities
      → Bytes
      → ℤ
      → Bool
      → World R J
      → Result LocationResult × World R J
  unfolding signed_location shape
  sign_and_shape i ref location caps partition ttl_seconds upload w =
      proceed (signed_location i ref location caps partition ttl_seconds upload w)
        λ signed w. (ok (shape i location caps ttl_seconds signed), w)
