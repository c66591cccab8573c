-- ===== src/Cache/Memory/Tests.antt =====
-- Runs of internal/cache/memory.go.
use grpm.Base.{
  ◌≡◌, ◌≢◌, refl, false, none, some, List, [], ◌∷◌, ◌++◌, arith, Text, codes, text_eq,
  if◌then◌else◌,
}
use grpm.Base.Assoc.{count, lookup}
use grpm.Cache.Entry.{Entry, key, make_key}
use grpm.Cache.Memory.{
  MemoryCache, stored, nil_map_panic, found, new_memory_cache, put, get, stamped,
}
use grpm.Cache.Memory.Order.{IsLru, do_put_batch, call, make_room}
use grpm.Cache.Memory.Lru.{EndsLru}
use grpm.Cache.Memory.Calls.{call-EndsLru, new-IsLru}
use grpm.Cache.Memory.PutGet.{evicts, entry_at, put-get, put-evicts}
use grpm.Cache.Memory.Interleaving.{
  Section, mark_closed, do_release, do_store, do_touch, hit, run, EndsSound, run_new-EndsSound,
}
use grpm.Cache.Memory.Panic.{run-ne-nil_map_panic, run_close_store-panics}

abbrev sample : Text → Entry
sample name = record {
  category = codes "dev-libs";
  name = name;
  version = codes "1";
  eapi = codes "8";
  slot = codes "0";
  sub_slot = [];
  keywords = [];
  iuse = [];
  use_flags = [];
  license = [];
  description = [];
  homepage = [];
  depend = [];
  r_depend = [];
  b_depend = [];
  p_depend = [];
  src_uri = [];
  ebuild_mtime = 3;
  cached_at = 0;
}

abbrev a : Entry
a = sample (codes "a")

abbrev b : Entry
b = sample (codes "b")

-- A cache at its limit of one entry.
abbrev full : MemoryCache
full = record {
  max_entries = 1;
  closed = false;
  released = false;
  hits = 0;
  misses = 0;
  entries = (codes "dev-libs/a-1", record { entry = a; last_access = 5 }) ∷ [];
  order = codes "dev-libs/a-1" ∷ [];
}

full-IsLru : IsLru full
unfolding count
full-IsLru = record {
  positive = omega arith;
  small = omega arith;
  exact = record { once = λ k. ground arith; same = λ k. refl };
  open_map = λ e. refl;
}

b_is_new : lookup (key b) full.entries ≡ none
unfolding lookup key text_eq make_key
b_is_new = refl

call-EndsLru_example : EndsLru (call (do_put_batch (some a ∷ some b ∷ [])) 7 (new_memory_cache 1))
call-EndsLru_example =
    call-EndsLru (do_put_batch (some a ∷ some b ∷ [])) 7 (new_memory_cache 1) (new-IsLru 1)

put-get_example :
    (c' : MemoryCache) × (put (some b) 7 full ≡ (stored c', none))
    × ((get (codes "dev-libs") (codes "b") (codes "1") 8 c').1 ≡ found (stamped 7 b))
put-get_example = put-get b 7 8 full full-IsLru refl

put-evicts_example :
    (c' : MemoryCache) × (put (some b) 7 full ≡ (stored c', none))
    × ((j : Text)
        → lookup j c'.entries ≡ (
            if text_eq (key b) j
            then some (entry_at 7 b)
            else if evicts full j
            then none
            else lookup j full.entries))
    × (c'.order ≡ (make_room full).order ++ key b ∷ [])
put-evicts_example = put-evicts b 7 full full-IsLru refl b_is_new

abbrev sections : List Section
sections =
    do_store (codes "x") (record { entry = a; last_access = 5 })
    ∷ mark_closed
    ∷ hit
    ∷ do_touch (codes "y") 6
    ∷ []

run_new-EndsSound_example : EndsSound (run sections (new_memory_cache 1))
run_new-EndsSound_example = run_new-EndsSound 1 sections

run-ne-nil_map_panic_example : run sections full ≢ nil_map_panic
run-ne-nil_map_panic_example = run-ne-nil_map_panic sections full (tt, (tt, (tt, (tt, tt)))) refl

run_close_store-panics_example :
    run
      (mark_closed ∷ do_release ∷ do_store (codes "x") (record { entry = b; last_access = 5 }) ∷ [])
      full
    ≡ nil_map_panic
run_close_store-panics_example =
    run_close_store-panics (codes "x") (record { entry = b; last_access = 5 }) full (omega arith)
