-- ===== src/Prelude/Dict.antt =====
-- `std::map`: the association list, its iteration, and the nested maps of the repositories.
mod Defs
mod Iterate
mod Nested
unfoldable pub use Defs.{lookup, insert, remove}
pub use Defs.{
  Key, bytes_key, lookup-insert, lookup-remove, Above, IsSorted, insert-IsSorted, remove-IsSorted,
}
unfoldable pub use Iterate.{elem, keys_where, values_where}
pub use Iterate.{holds_at, elem-keys_where}
unfoldable pub use Nested.{bucket, lookup_in, insert_in, remove_in, touch}
pub use Nested.{pair_key, lookup_in-insert_in, lookup_in-remove_in, lookup_in-touch}
