-- ===== src/BlobStore/Keys.antt =====
-- src/infra/blob/memory/memory_blob_store.cpp: the keys of every container rise strictly, as
-- `std::map` has them, and none is empty, whatever is called.
use fssvrcpp.Prelude.{ℕ, suc, ◌<◌, List, [], ◌∷◌, some, length, ◌≡◌, arith}
use fssvrcpp.Prelude.Bytes.{Bytes}
use fssvrcpp.Prelude.Dict.{bytes_key, lookup}
use fssvrcpp.Prelude.Int.{pos}
use fssvrcpp.BlobStore.Types.{Op, FaultPlan, Objects, Blobs}
use fssvrcpp.BlobStore.Calls
use fssvrcpp.BlobStore.Calls.{
  ByteRange, ensure_container, check_put, put_read, put, get, stat, remove_begun, copy,
}
use fssvrcpp.BlobStore.Faults.{
  Call, ensures, puts, gets, stats, removes, copies, lists, sweeps, run_call,
}
use fssvrcpp.BlobStore.Pages.{follow-entries_with}
use fssvrcpp.BlobStore.Prefixes.{entries_with, follow}
use fssvrcpp.BlobStore.Keeping.{
  IsOrdered, IsKeeping, begun-IsKeeping, ensure-IsKeeping, put-IsKeeping, get-IsKeeping,
  stat-IsKeeping, remove_begun-IsKeeping, copy-IsKeeping, list-IsKeeping, sweep-IsKeeping,
}

module _ (sha256_hex : Bytes → Bytes) where
  run_call-IsOrdered : (c : Call) → IsKeeping (run_call sha256_hex c)
  unfolding run_call Calls.remove
  run_call-IsOrdered (ensures name) s h = ensure-IsKeeping name s h
  run_call-IsOrdered (puts now ref source options) s h =
      put-IsKeeping sha256_hex now ref source options s h
  run_call-IsOrdered (gets ref range) s h = get-IsKeeping ref range s h
  run_call-IsOrdered (stats ref) s h = stat-IsKeeping ref s h
  run_call-IsOrdered (removes ref) s h =
      begun-IsKeeping Op.remove (remove_begun ref) (remove_begun-IsKeeping ref) s h
  run_call-IsOrdered (copies now source target) s h = copy-IsKeeping now source target s h
  run_call-IsOrdered (lists container prefix token limit) s h =
      list-IsKeeping container prefix token limit s h
  run_call-IsOrdered (sweeps container older_than dry_run) s h =
      sweep-IsKeeping container older_than dry_run s h

  unfoldable pub run_calls : List Call → Blobs → Blobs
  unfolding run_call
  run_calls [] s = s
  run_calls (c ∷ cs) s = run_calls cs (run_call sha256_hex c s).1

  run_calls-IsOrdered :
      (cs : List Call) (s : Blobs) → IsOrdered s.containers → IsOrdered (run_calls cs s).containers
  unfolding run_calls
  run_calls-IsOrdered [] s h = h
  run_calls-IsOrdered (c ∷ cs) s h =
      run_calls-IsOrdered cs (run_call sha256_hex c s).1 (run_call-IsOrdered c s h)

-- A store without containers.
abbrev pub empty_store : FaultPlan → Blobs
empty_store plan = record {
  containers = [];
  fault = plan;
  op_counts = λ _. 0;
  injected_latency_millis = pos 0;
}

empty-IsOrdered : IsOrdered []
unfolding lookup
empty-IsOrdered c objects h = cc

-- Whatever was called since the store was empty, faults included, a listing of a prefix in any
-- container, page by page with any positive limit, ends within one call more than there are
-- objects, and gives the entries of the keys with the prefix, each once and in key order.
pub run_calls-follow :
    (sha256_hex : Bytes → Bytes) (cs : List Call) (plan : FaultPlan) (container prefix : Bytes)
    (objects : Objects) (limit : ℕ)
    → lookup container (run_calls sha256_hex cs (empty_store plan)).containers ≡ some objects
    → 0 < limit
    → follow (suc (length objects)) prefix limit [] objects ≡ some (entries_with prefix objects)
run_calls-follow sha256_hex cs plan container prefix objects limit e l =
    let h =
      run_calls-IsOrdered sha256_hex cs (empty_store plan) empty-IsOrdered container objects e in
    follow-entries_with (suc (length objects)) prefix limit objects h.0 h.1 l (omega arith)
