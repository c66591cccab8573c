-- ===== src/State/Installed.antt =====
-- The records of internal/state/database.go: an installed package and its files. A nil pointer is
-- `none`, and an integer of Go is its bits.
use grpm.Base.{ℕ, Option, List, Text}
use grpm.Pkg.Package.{Package}

pub data FileType : Type 0 where
  regular directory symlink hardlink : FileType

pub record InstalledFile : Type 0 where
  pub path : Text
  pub kind : FileType  -- the field `Type`
  pub size : ℕ
  pub hash : Text
  pub target : Text

-- The build information is left out. `built_use` is the field `USE`.
pub record InstalledPackage (Atom : Type 0) : Type 0 where
  pub pkg : Option (Package Atom)
  pub files : List InstalledFile
  pub built_use : List Text
  pub size : ℕ
