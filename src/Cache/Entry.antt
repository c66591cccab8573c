-- ===== src/Cache/Entry.antt =====
-- internal/cache/entry.go and the errors of internal/cache/cache.go. A time is a number of ticks;
-- the zero time is 0.
use grpm.Base.{ℕ, ◌+◌, Bool, List, ◌++◌, Text, codes, ltb, ◌==◌}

pub record Entry : Type 0 where
  pub category : Text
  pub name : Text
  pub version : Text
  pub eapi : Text
  pub slot : Text
  pub sub_slot : Text
  pub keywords : List Text
  pub iuse : List Text
  pub use_flags : List Text
  pub license : Text
  pub description : Text
  pub homepage : Text
  pub depend : Text
  pub r_depend : Text
  pub b_depend : Text
  pub p_depend : Text
  pub src_uri : List Text
  pub ebuild_mtime : ℕ
  pub cached_at : ℕ

pub data CacheError : Type 0 where
  not_found invalid_entry cache_closed : CacheError

-- `category + "/" + name + "-" + version`.
unfoldable pub make_key : Text → Text → Text → Text
make_key category name version = category ++ (codes "/" ++ (name ++ (codes "-" ++ version)))

-- `Entry.Key`.
unfoldable pub key : Entry → Text
unfolding make_key
key e = make_key e.category e.name e.version

-- `Entry.Atom`.
unfoldable pub atom : Entry → Text
atom e = e.category ++ (codes "/" ++ e.name)

-- `Entry.IsValid`: the ebuild has not been modified since.
unfoldable pub is_current : Entry → ℕ → Bool
is_current e current_mtime = e.ebuild_mtime == current_mtime

-- `Entry.IsExpired`; `now` is the clock, and `now - max_age` is moved to the other side.
unfoldable pub is_expired : Entry → ℕ → ℕ → Bool
is_expired e max_age now = ltb (max_age + e.cached_at) now
