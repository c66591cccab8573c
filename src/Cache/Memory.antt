-- ===== src/Cache/Memory.antt =====
-- internal/cache/memory.go: `MemoryCache`. A method is a check of the closed flag and then one or two
-- critical sections, which are functions of their own: those of several goroutines may interleave.
-- `now` is what `time.Now()` returns. The proofs are in the modules below.
pub mod Eviction
pub mod Covers
pub mod Interleaving
pub mod Panic
pub mod Order
pub mod Lru
pub mod Calls
pub mod PutGet
mod Tests
use grpm.Base.{
  ℕ, suc, ◌+◌, ◌%◌, ◌^◌, Bool, true, false, ◌&&◌, Option, none, some, List, [], ◌∷◌, ◌++◌, length,
  leb, ltb, ◌==◌, if◌then◌else◌, Text, codes, has_prefix,
}
use grpm.Base.Assoc.{lookup, insert, remove, remove_first}
use grpm.Cache.Entry.{Entry, CacheError, not_found, invalid_entry, cache_closed, key, make_key}

pub record MemoryEntry : Type 0 where
  pub entry : Entry
  pub last_access : ℕ

pub record MemoryCache : Type 0 where
  pub max_entries : ℕ
  pub closed : Bool
  pub released : Bool  -- the map is nil, which `Close` makes it; it reads as an empty map
  pub entries : List (Text × MemoryEntry)
  pub order : List Text
  pub hits : ℕ  -- the bits of an int64
  pub misses : ℕ  -- the bits of an int64

-- `atomic.AddInt64(p, 1)`.
abbrev pub add_one_i64 : ℕ → ℕ
add_one_i64 n = (n + 1) % 2 ^ 64

-- The argument of the constructor that stands for every value ≤ 0 is 0.
unfoldable pub new_memory_cache : ℕ → MemoryCache
new_memory_cache max_entries = record {
  max_entries = if max_entries == 0 then 100000 else max_entries;
  closed = false;
  released = false;
  entries = [];
  order = [];
  hits = 0;
  misses = 0;
}

unfoldable pub remove_from_order : Text → MemoryCache → MemoryCache
remove_from_order k c = record c { order = remove_first k c.order }

unfoldable pub move_to_end : Text → MemoryCache → MemoryCache
unfolding remove_from_order
move_to_end k c = let c' = remove_from_order k c in record c' { order = c'.order ++ k ∷ [] }

-- The loop `for len(c.entries) >= c.maxEntries { c.evictOldest() }`, by recursion on the order that
-- `evictOldest` shortens. With an empty order `evictOldest` changes nothing, and the loop has no end
-- if the test still holds: `none`.
unfoldable pub evict_while_full :
    ℕ → List Text → List (Text × MemoryEntry) → Option (List (Text × MemoryEntry) × List Text)
evict_while_full max_entries [] entries =
    if leb max_entries (length entries) then none else some (entries, [])
evict_while_full max_entries (oldest ∷ order) entries =
    let rest = evict_while_full max_entries order (remove oldest entries) in
    if leb max_entries (length entries) then rest else some (entries, oldest ∷ order)

-- The critical section of `Get`, for an entry `me` that a read before it found: it writes through
-- the pointer, which another goroutine may have taken out of the map since, and moves the key.
unfoldable pub touch : Text → ℕ → MemoryCache → MemoryCache
unfolding move_to_end
touch k now c = elim (lookup k c.entries) [
  | none ↦ move_to_end k c
  | some me ↦ record (move_to_end k c) {
    entries = insert k (record me { last_access = now }) c.entries;
  }
]

pub data GetResult : Type 0 where
  found : Entry → GetResult
  failed : CacheError → GetResult

-- `Get` with no other goroutine between its two critical sections.
unfoldable pub get_key : Text → ℕ → MemoryCache → MemoryCache × GetResult
unfolding touch
get_key k now c = if c.closed then (c, failed cache_closed) else elim (lookup k c.entries) [
  | none ↦ (record c { misses = add_one_i64 c.misses }, failed not_found)
  | some me ↦ (record (touch k now c) { hits = add_one_i64 c.hits }, found me.entry)
]

unfoldable pub get : Text → Text → Text → ℕ → MemoryCache → MemoryCache × GetResult
unfolding get_key make_key
get category name version now c = get_key (make_key category name version) now c

-- The copy that `Put` stores.
unfoldable pub stamped : ℕ → Entry → Entry
stamped now e = if e.cached_at == 0 then record e { cached_at = now } else e

-- What the critical section of `Put` may do: end, loop for ever, or write to the nil map.
pub data Outcome : Type 0 where
  stored : MemoryCache → Outcome
  endless : Outcome
  nil_map_panic : Outcome

-- `Put` for a key that is not there, after the eviction loop.
unfoldable pub add_new :
    Text → MemoryEntry → MemoryCache → Option (List (Text × MemoryEntry) × List Text) → Outcome
add_new k me c none = endless
add_new k me c (some (entries, order)) =
    if c.released
    then nil_map_panic
    else stored (record c { entries = insert k me entries; order = order ++ k ∷ [] })

-- The critical section of `Put`.
unfoldable pub store : Text → MemoryEntry → MemoryCache → Outcome
unfolding move_to_end add_new
store k me c = elim (lookup k c.entries) [
  | some _ ↦ stored (record (move_to_end k c) { entries = insert k me c.entries })
  | none ↦ add_new k me c (evict_while_full c.max_entries c.order c.entries)
]

-- `Put`; the argument `none` is the nil entry.
unfoldable pub put : Option Entry → ℕ → MemoryCache → Outcome × Option CacheError
unfolding store stamped
put none now c = (stored c, some (if c.closed then cache_closed else invalid_entry))
put (some e) now c =
    if c.closed
    then (stored c, some cache_closed)
    else (store (key (stamped now e)) (record { entry = stamped now e; last_access = now }) c, none)

-- The loop of `PutBatch`: it stops at the first error.
unfoldable pub put_all : List (Option Entry) → ℕ → MemoryCache → Outcome × Option CacheError
put_all [] now c = (stored c, none)
put_all (e ∷ es) now c =
    let (outcome, error) = put e now c in
    elim outcome [
      | stored c' ↦ elim error [ none ↦ put_all es now c' | some x ↦ (stored c', some x) ]
      | endless ↦ (endless, error)
      | nil_map_panic ↦ (nil_map_panic, error)
    ]

unfoldable pub put_batch : List (Option Entry) → ℕ → MemoryCache → Outcome × Option CacheError
unfolding put_all
put_batch es now c = if c.closed then (stored c, some cache_closed) else put_all es now c

-- `delete(c.entries, key)` and `removeFromOrder`.
unfoldable pub drop_key : Text → MemoryCache → MemoryCache
unfolding remove_from_order
drop_key k c = remove_from_order k (record c { entries = remove k c.entries })

-- The critical section of `Delete`.
unfoldable pub drop_if_there : Text → MemoryCache → MemoryCache
unfolding drop_key
drop_if_there k c = elim (lookup k c.entries) [ none ↦ c | some _ ↦ drop_key k c ]

unfoldable pub delete : Text → Text → Text → MemoryCache → MemoryCache × Option CacheError
unfolding drop_if_there make_key
delete category name version c =
    if c.closed
    then (c, some cache_closed)
    else (drop_if_there (make_key category name version) c, none)

-- The test in the first loop of `Invalidate`.
unfoldable pub is_stale : Text → ℕ → Text → MemoryEntry → Bool
is_stale prefix mtime k me = has_prefix k prefix && ltb me.entry.ebuild_mtime mtime

unfoldable pub stale_keys : Text → ℕ → List (Text × MemoryEntry) → List Text
unfolding is_stale
stale_keys prefix mtime [] = []
stale_keys prefix mtime ((k, me) ∷ m) =
    let rest = stale_keys prefix mtime m in if is_stale prefix mtime k me then k ∷ rest else rest

-- The second loop of `Invalidate`.
unfoldable pub drop_keys : List Text → MemoryCache → MemoryCache
unfolding drop_key
drop_keys [] c = c
drop_keys (k ∷ ks) c = drop_keys ks (drop_key k c)

-- The critical section of `Invalidate`.
unfoldable pub drop_stale : Text → ℕ → MemoryCache → MemoryCache
unfolding stale_keys drop_keys
drop_stale prefix mtime c = drop_keys (stale_keys prefix mtime c.entries) c

unfoldable pub package_prefix : Text → Text → Text
package_prefix category name = category ++ (codes "/" ++ (name ++ codes "-"))

unfoldable pub invalidate : Text → Text → ℕ → MemoryCache → MemoryCache × Option CacheError
unfolding drop_stale package_prefix
invalidate category name mtime c =
    if c.closed
    then (c, some cache_closed)
    else (drop_stale (package_prefix category name) mtime c, none)

-- The critical section of `InvalidateAll`: it makes a new map.
unfoldable pub clear : MemoryCache → MemoryCache
clear c = record c { released = false; entries = []; order = []; hits = 0; misses = 0 }

unfoldable pub invalidate_all : MemoryCache → MemoryCache × Option CacheError
unfolding clear
invalidate_all c = if c.closed then (c, some cache_closed) else (clear c, none)

-- The critical section of `Close`.
unfoldable pub release : MemoryCache → MemoryCache
release c = record c { released = true; entries = []; order = [] }

unfoldable pub close : MemoryCache → MemoryCache
unfolding release
close c = if c.closed then c else release (record c { closed = true })
