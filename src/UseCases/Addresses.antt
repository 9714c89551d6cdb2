-- ===== src/UseCases/Addresses.antt =====
-- src/app/usecases/usecases.cpp: `GetUploadLocation`, `GetFileLocation`, `GetDownloadLocation` and
-- `GetFileList`.
use fssvrcpp.Domain.{FileLocation, LocationQuery, storage_driver_name}
use fssvrcpp.Errors.{Result, ok, err, invalid_argument}
use fssvrcpp.Issuer.{Issuer, LocationResult}
use fssvrcpp.Issuer.Issuing.{issue_upload_location, issue_download_location}
use fssvrcpp.Location.{LocationPage, find, list}
use fssvrcpp.Prelude.{
  ℕ, ◌-◌, ◌*◌, ◌%◌, ◌^◌, ltb, ◌==◌, ◌&&◌, ◌||◌, not, Bool, true, List, ◌∷◌, ◌++◌, map, Option, none,
  some, leb, length, if◌then◌else◌,
}
use fssvrcpp.Prelude.Bytes.{Bytes, codes}
use fssvrcpp.Prelude.Int.{ℤ, pos, negsuc, pos_part, is_neg, is_nonpos, ltb_ℤ}
use fssvrcpp.Range.{to_lower}
use fssvrcpp.Transfer.{Json}
use fssvrcpp.UseCases.Ports.{CallerContext, Ports, authorize_caller, acquire_upload_lease}
use fssvrcpp.World.{World, Extra, object_ref_from_location, proceed}

abbrev pub editors : Bytes
editors = codes "service.file.editors"

abbrev pub viewers : Bytes
viewers = codes "service.file.viewers"

-- `ToUpper`, of each byte.
abbrev pub to_upper : ℕ → ℕ
to_upper c = if leb b'a' c && leb c b'z' then c - 32 else c

pub record DownloadLocationResult : Type 0 where
  pub file_id : Bytes
  pub signed_url : Bytes
  pub driver : Bytes
  pub expires_at_epoch_seconds : ℤ
  pub native_presign : Bool

pub record FileLocationView : Type 0 where
  pub driver : Bytes
  pub location : Bytes
  pub file_source : Bytes

pub record FileListRequest : Type 0 where
  pub user_id : Bytes
  pub time_from_epoch_seconds : ℤ
  pub time_to_epoch_seconds : ℤ
  pub page_num : ℤ
  pub items : ℤ

pub record FileListEntry : Type 0 where
  pub file_id : Bytes
  pub driver : Bytes
  pub location : Bytes
  pub created_at_epoch_seconds : ℤ
  pub created_by : Bytes

pub record FileListResult : Type 0 where
  pub content : List FileListEntry
  pub number : ℤ
  pub number_of_elements : ℕ
  pub size : ℤ
  pub total : ℕ

module _ {J : Type 0} ⦃x : Extra J⦄ where
  -- `PhysicalLocationOf`
  unfoldable pub physical_location_of : FileLocation J → Bytes
  unfolding object_ref_from_location
  physical_location_of l = elim (object_ref_from_location l) [
    | err e ↦ l.file_source
    | ok ref ↦ ref.container ++ (b'/' ∷ ref.key)
  ]

  -- `ProviderKeyOf`
  unfoldable pub provider_key_of : FileLocation J → Bytes
  unfolding storage_driver_name
  provider_key_of l = elim (x.driver_name l.extra) [
    | some name ↦ map to_upper name
    | none ↦ map to_upper (storage_driver_name l.driver)
  ]

  unfoldable pub view_of : FileLocation J → FileLocationView
  unfolding physical_location_of provider_key_of
  view_of l = record {
    driver = map to_lower (provider_key_of l);
    location = physical_location_of l;
    file_source = l.file_source;
  }

  unfoldable pub entry_of : FileLocation J → FileListEntry
  unfolding physical_location_of provider_key_of
  entry_of l = record {
    file_id = l.file_id;
    driver = map to_lower (provider_key_of l);
    location = physical_location_of l;
    created_at_epoch_seconds = l.created_at_epoch_seconds;
    created_by = l.user_id;
  }

-- The product of two numbers of 32 bits that are not negative, as the machine wraps it.
unfoldable pub times_int32 : ℤ → ℤ → ℤ
times_int32 a b =
    let n : ℕ = pos_part a * pos_part b % 2 ^ 32 in
    if ltb n (2 ^ 31) then pos n else negsuc (2 ^ 32 - 1 - n)

-- The query of `GetFileList`.
abbrev pub query_of : FileListRequest → LocationQuery
query_of q = record {
  user_id = q.user_id;
  created_after_epoch_seconds = q.time_from_epoch_seconds;
  created_before_epoch_seconds = q.time_to_epoch_seconds;
  limit = q.items;
  offset = times_int32 q.page_num q.items;
}

-- Whether the bounds of the time are the wrong way round.
abbrev pub is_inverted : FileListRequest → Bool
is_inverted q =
    not (is_neg q.time_from_epoch_seconds)
    && (not (is_neg q.time_to_epoch_seconds)
        && ltb_ℤ q.time_to_epoch_seconds q.time_from_epoch_seconds)

module _ {J : Type 0} ⦃x : Extra J⦄ where
  -- The answer of `GetFileList` to a page, which must not be empty.
  unfoldable pub answer_of : FileListRequest → LocationPage J → Result FileListResult
  unfolding entry_of
  answer_of q page =
      if page.total == 0 || length page.records == 0
      then err invalid_argument
      else ok (record {
        content = map entry_of page.records;
        number = q.page_num;
        number_of_elements = length (map entry_of page.records);
        size = q.items;
        total = page.total;
      })

module _ {R J : Type 0} ⦃x : Extra J⦄ (ports : Ports R) (caller : CallerContext) where
  -- `GetFileLocation::Execute`
  unfoldable pub get_file_location : Bytes → World R J → Result FileLocationView × World R J
  unfolding authorize_caller view_of
  get_file_location file_id w =
      proceed (authorize_caller ports caller editors true, w)
        λ _ w.
          proceed (find caller.partition file_id w.locations, w)
            λ location w. proceed (ports.audit, w) λ _ w. (ok (view_of location), w)

  -- `GetFileList::Execute`
  unfoldable pub get_file_list : FileListRequest → World R J → Result FileListResult × World R J
  unfolding authorize_caller times_int32
  get_file_list q w =
      proceed (authorize_caller ports caller editors true, w)
        λ _ w.
          if is_nonpos q.items
          then (err invalid_argument, w)
          else if is_neg q.page_num
          then (err invalid_argument, w)
          else if is_inverted q
          then (err invalid_argument, w)
          else proceed (list caller.partition (query_of q) w.locations, w)
              λ page w.
                proceed (answer_of q page, w)
                  λ answer w. proceed (ports.audit, w) λ _ w. (ok answer, w)

module _ {P R J : Type 0} (json : Json P) ⦃x : Extra J⦄ (ports : Ports R) (i : Issuer)
    (caller : CallerContext) where
  -- `GetUploadLocation::Execute`
  unfoldable pub get_upload_location :
      Option Bytes → Option Bytes → World R J → Result LocationResult × World R J
  unfolding authorize_caller
  get_upload_location requested_file_id expiry_time w =
      proceed (authorize_caller ports caller editors true, w)
        λ _ w.
          proceed
            (issue_upload_location json i caller.partition caller.user_id requested_file_id
              expiry_time w)
            λ r w.
              proceed (acquire_upload_lease ports caller r.file_id r.file_source w)
                λ _ w. proceed (ports.audit, w) λ _ w. (ok r, w)

  -- `GetDownloadLocation::Execute`
  unfoldable pub get_download_location :
      Bytes → Option Bytes → World R J → Result DownloadLocationResult × World R J
  unfolding authorize_caller
  get_download_location file_id expiry_time w =
      proceed (authorize_caller ports caller viewers true, w)
        λ _ w.
          proceed (issue_download_location json i caller.partition file_id expiry_time w) λ r w.
            proceed (ports.audit, w)
              λ _ w. (
                ok (record {
                  file_id = r.file_id;
                  signed_url = r.signed_url;
                  driver = r.driver;
                  expires_at_epoch_seconds = r.expires_at_epoch_seconds;
                  native_presign = r.native_presign;
                }),
                w,
              )
