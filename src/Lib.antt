-- ===== src/Lib.antt =====
-- fssvrcpp: a verification library for the file service of this repository, in antt.
--
-- The service hands out locations for files, records the metadata of uploaded files, and serves
-- their bytes over REST and gRPC. A request is checked and answered by a use case, which works on
-- repositories behind ports: metadata records with their versions, locations, and leases by which
-- several instances of the service share the cleaning up. The library models the repositories that
-- the repository implements in memory, which also fix what the ports promise, the table of errors
-- that both adapters answer from, the parser of byte ranges, sources of bytes, the expiry parameter,
-- the policy of object keys, the signed tokens by which clients move bytes, and, on these and the
-- store of objects in memory, the issuing of locations, the collection of garbage and the use cases
-- around uploads.
--
-- Which file models what (paths from the root of the repository):
-- - Prelude and its children: numbers, tests, lists, signed integers, bytes and dictionaries.
--   A `std::map` is an association list sorted by key (Prelude/Dict), a `std::string` a list of
--   bytes, an `std::int64_t` that may be negative the integers of Prelude/Int.
-- - Errors: `ErrorKind` and `Result` of src/common/result/result.h; Errors/Contract: the table of
--   src/domain/contract/error_table.cpp with `HttpStatusFor`, `ReasonFor` and `GrpcStatusFor` of the
--   adapters' error mappers; Errors/Agreement: how the two adapters agree;
--   Errors/Names: `ErrorKindName`.
-- - Domain: the types of src/domain/model and src/domain/ports that the parts share.
-- - Lease: `InMemoryLeaseRepository` (src/infra/location/memory/memory_lease_repository.cpp);
--   `Acquire`, `Renew`, `Release`, `ClaimExpired` are `acquire`, `renew`, `release`,
--   `claim_expired`, which take the reading of the clock. Lease/Exclusion is about one lease,
--   Lease/ClaimLoop and Lease/Claims about the claiming of expired leases, Lease/Histories about any
--   sequence of calls.
-- - Location: `InMemoryLocationRepository` (memory_location_repository.cpp beside it), its two
--   indices in Location/Indices, its lookups in Location/Lookups, and what they give behind a save or
--   a delete in Location/Changes.
-- - Metadata: `InMemoryMetadataRepository` (src/infra/metadata/memory); Types holds the state,
--   Claiming the calls on claims, Records the calls on records, Chains and Indices the invariant,
--   Preservation its preservation, ClaimStep and Lifecycle what follows a claim, Visibility what
--   clients read, Histories any sequence of calls.
-- - Range: `ParseRangeHeader` and its helpers (src/common/bytes/bytes.cpp); Range/Numbers is about
--   the numbers in a header, Range/Bounds about the answer.
-- - Expiry: `ExpiryPolicy` (src/app/services/expiry_policy.cpp); Digits, Limits and RoundTrip.
-- - Decimal: `std::to_string` and reading it back, shared by the printers.
-- - ObjectKey: `ObjectKeyPolicy` (src/app/services/object_key_policy.cpp); Segments cuts texts, and
--   RoundTrip, Keys and Containers are about file sources, keys on disk and containers.
-- - Streams: `ByteSource` with `ReadAll`, `StringSource` and `LimitedSource`
--   (src/common/bytes/bytes.cpp); the loop of `ReadAll` has fuel, and more than there are bytes is
--   enough. Streams/Limits is about a body behind a limit.
-- - BlobStore: `InMemoryBlobStore` (src/infra/blob/memory/memory_blob_store.cpp) with its planned
--   faults. Types has the state, Calls the calls on objects, Listing the walks through a container;
--   Faults is about calls that fail, Puts and Contents about reads after writes, Prefixes, Pages,
--   Keeping and Keys about listings, Sweeps about temporary files. What a source's `ReadAll` and a
--   sink's `Write` answer are arguments.
-- - World: the repositories and stores together, on which the tasks and the use cases work; one store
--   may serve both zones. The JSON `extra` of a location is reached through the interface `Extra`.
-- - Gc: `GcTask` (src/app/tasks/gc_task.cpp), Tasks with the collection by leases and Scans with the
--   walks through containers and the whole run; Safety, References, Orphans, Idle and DryRun say what
--   is left alone. The walks have fuel, one unit for each page; what is stated of them holds for any
--   fuel.
-- - UseCases: src/app/usecases/usecases.cpp on the repositories in memory. Ports has the services as
--   what they answer in one call, the checks and the leases; Copy the copies between zones; Prepare and
--   Create `CreateFileMetadata`; Records the reading and deletion of records. Claims and Publishing are
--   about what becomes of a claim, Leases about its lease. Addresses has `GetUploadLocation`,
--   `GetFileLocation`, `GetDownloadLocation` and `GetFileList`; Withdrawal is about an address whose
--   lease is refused, Pages about the pages of a list. `read_object` has fuel for each byte of the
--   object and the end.
-- - Crypto: base64, hex and the comparison in constant time (src/common/crypto/crypto.cpp); Groups and
--   RoundTrip are about reading base64 back, Compare about the comparison. A byte is a number below
--   256, and the accumulator of 32 bits keeps its wrap.
-- - Transfer: `HmacTransferTokenCodec` (src/infra/transfer/transfer_token.cpp), the tokens in the URLs
--   that the service signs itself; Decoding and RoundTrip are about them. Transfer/Endpoint:
--   `TransferEndpoint` (transfer_endpoint.cpp beside it), which moves the bytes.
-- - Issuer: `LocationIssuer` (src/app/services/location_issuer.cpp) with Issuing for its two calls;
--   Uploads, Issued and Refusals are about upload addresses, Transfers about an upload and a download
--   through the endpoint.
-- - Kind: `KindValidator` (src/app/services/kind_validator.cpp), whose regular expression is a list of
--   characters and repeated characters; Accepted is about the kinds that pass.
-- - Tests and its children: the theorems at concrete inputs.
--
-- State and calls: a call of a repository is a function from the state to its result and the new
-- state. The mutex that each class holds makes a call one step, so the interleavings of several
-- instances are the sequences of calls that the Histories modules run over. `Create` of the metadata
-- repository, which takes its mutex twice, is one step too; its two halves are calls of the histories
-- as well. Whether another `GcTask::Run` holds the mutex of the task is an argument of `run`.
--
-- Bounds and fuel: loops are structural on their lists, but for a few with fuel. The printed digits
-- of a number have the number itself and one more as fuel, which is enough since each step divides
-- by ten. The loop of `ReadAll` takes its fuel as an argument; more than the content has bytes is
-- enough, since each round but the last reads one at least. The pages of the locations have fuel
-- for each location and one more, which is enough since every page but the last holds one at least.
-- Products of minutes, hours, days and seconds wrap at 64 bits as the machine's do, and that of a page
-- and its size at 32; sums and differences with the readings of the clock are integers without a
-- bound. The offset in the walk over the locations, an `int` in the source, has none either, which
-- differs from 2^31 locations of a partition on. `max_ranges` is the 32 of src/common/bytes/bytes.h.
--
-- Parameters: the JSON value of the vendored library is a type, and so is the part of a metadata
-- record that the repositories only copy. The objects of that library that a token carries are the
-- record `Json` of operations and laws: an assigned member is found, others are as before, and what is
-- printed is not empty. `Codec` has the digest of the vendored library as a function that answers at
-- least one byte. `Issuer` has what the clock, the generators of ids and nonces and `FormatTimestamp`
-- answer in one call; the clock stands still within a call.
--
-- Not modelled: the rest of the use cases (storage and retrieval instructions, copies of several files,
-- signed addresses by id, streamed transfers, revocation, information), the renewal of leases in the
-- background, the guard against skewed clocks, the validation and the JSON form of metadata records,
-- and the headers of a signed location. The HTTP and gRPC servers, sockets, files, configuration,
-- logging, the databases behind the SQL repositories, the remote clients and hashing act through
-- systems outside the repository. Events, the audit log but for its answer, and the messages of errors
-- are left out.
pub mod Prelude
pub mod Errors
pub mod Lease
pub mod Domain
pub mod Location
pub mod Metadata
pub mod Decimal
pub mod Range
pub mod Expiry
pub mod Crypto
pub mod Transfer
pub mod ObjectKey
pub mod BlobStore
pub mod World
pub mod Gc
pub mod Issuer
pub mod Kind
pub mod UseCases
pub mod Streams
pub mod Tests
