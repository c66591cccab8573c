-- ===== src/Daemon/Conflicts.antt =====
-- internal/daemon/conflict_detector.go: which jobs affect the same packages. The package service, which
-- resolves dependencies, is a function; `none` is its error.
use grpm.Base.{
  ℕ, Bool, true, false, ◌&&◌, ◌||◌, Option, none, some, List, [], ◌∷◌, ◌++◌, ◌==◌, leb, all,
  if◌then◌else◌, Text, codes, text_eq, split_on, is_digit,
}
use grpm.Solver.BaseAtom.{or_here}

pub data JobStatus : Type 0 where
  pending running completed failed canceled : JobStatus

pub data JobType : Type 0 where
  install remove update sync : JobType

-- The times and the callbacks are left out. `is_canceled` is the state of the job's context, and
-- `kind` the field `Type`.
pub record Job : Type 0 where
  pub id : Text
  pub kind : JobType
  pub package_name : Text
  pub status : JobStatus
  pub progress : ℕ
  pub error : Text
  pub is_canceled : Bool

pub data ConflictType : Type 0 where
  conflict_none conflict_same_package conflict_dependency conflict_slot conflict_blocker :
      ConflictType

-- Without the text of the reason.
pub record PackageConflict : Type 0 where
  pub kind : ConflictType
  pub job1 : Job
  pub job2 : Job
  pub conflicting_pkg : Text

pub record ResolveResult : Type 0 where
  pub packages_to_install : List (Text × Text)
  pub packages_to_update : List Text

abbrev pub PackageService : Type 0
PackageService = Text → Option ResolveResult

abbrev pub is_letter : ℕ → Bool
is_letter c = (leb b'a' c && leb c b'z') || (leb b'A' c && leb c b'Z')

abbrev pub is_version_byte : ℕ → Bool
is_version_byte c = is_digit c || (is_letter c || ((c == b'.') || ((c == b'-') || (c == b'_'))))

-- The first byte is a digit, so that the text has one.
unfoldable pub looks_like_version : Text → Bool
looks_like_version [] = false
looks_like_version (c ∷ s) = is_digit c && all is_version_byte s

-- What stands before the last dash with a version behind it.
unfoldable pub before_dash : Text → Option Text
unfolding looks_like_version
before_dash [] = none
before_dash (c ∷ s) = or_here c ((c == b'-') && looks_like_version s) (before_dash s)

abbrev pub base_of_parts : Text → List Text → Text
base_of_parts name (category ∷ name_with_version ∷ []) = elim (before_dash name_with_version) [
  | none ↦ name
  | some base ↦ category ++ (codes "/" ++ base)
]
base_of_parts name _ = name

unfoldable pub extract_package_name : Text → Text
unfolding split_on before_dash
extract_package_name name = base_of_parts name (split_on b'/' name)

unfoldable pub is_same_package : Text → Text → Bool
unfolding extract_package_name text_eq
is_same_package p q = text_eq (extract_package_name p) (extract_package_name q)

abbrev pub is_active : JobStatus → Bool
is_active pending = true
is_active running = true
is_active completed = false
is_active failed = false
is_active canceled = false

unfoldable pub filter_active_jobs : List Job → List Job
filter_active_jobs [] = []
filter_active_jobs (job ∷ jobs) =
    let rest = filter_active_jobs jobs in if is_active job.status then job ∷ rest else rest

abbrev pub resolves : JobType → Bool
resolves install = true
resolves update = true
resolves remove = false
resolves sync = false

unfoldable pub with_versions : List (Text × Text) → List Text
with_versions [] = []
with_versions ((name, version) ∷ m) = (name ++ (codes "-" ++ version)) ∷ with_versions m

-- The error that the source declares is never returned.
unfoldable pub get_affected_packages : PackageService → Job → List Text
unfolding with_versions
get_affected_packages service job =
    if resolves job.kind
    then elim (service job.package_name) [
      | none ↦ job.package_name ∷ []
      | some result ↦
          job.package_name ∷ (with_versions result.packages_to_install ++ result.packages_to_update)
    ]
    else job.package_name ∷ []

-- The inner loop.
unfoldable pub is_affected : Text → List Text → Bool
unfolding is_same_package
is_affected p [] = false
is_affected p (q ∷ qs) = let later = is_affected p qs in if is_same_package p q then true else later

-- The loops over shared packages.
unfoldable pub shared_package : List Text → List Text → Option Text
unfolding is_affected
shared_package [] existing = none
shared_package (p ∷ ps) existing =
    let later = shared_package ps existing in if is_affected p existing then some p else later

unfoldable pub check_job_conflict : PackageService → Job → Job → List Text → Option PackageConflict
unfolding is_same_package get_affected_packages shared_package
check_job_conflict service new_job existing_job new_affected =
    let shared : Option PackageConflict =
      elim (shared_package new_affected (get_affected_packages service existing_job)) [
        | none ↦ none
        | some p ↦ some (record {
          kind = conflict_dependency;
          job1 = new_job;
          job2 = existing_job;
          conflicting_pkg = p;
        })
      ] in
    if is_same_package new_job.package_name existing_job.package_name
    then some (record {
      kind = conflict_same_package;
      job1 = new_job;
      job2 = existing_job;
      conflicting_pkg = new_job.package_name;
    })
    else shared

-- The loop over the active jobs.
unfoldable pub first_conflict : PackageService → Job → List Job → List Text → Option PackageConflict
unfolding check_job_conflict
first_conflict service new_job [] affected = none
first_conflict service new_job (job ∷ jobs) affected =
    let later = first_conflict service new_job jobs affected in
    elim (check_job_conflict service new_job job affected) [
      | none ↦ later
      | some conflict ↦ some conflict
    ]

unfoldable pub detect_conflicts : PackageService → Job → List Job → Option PackageConflict
unfolding filter_active_jobs first_conflict get_affected_packages
detect_conflicts service new_job existing_jobs =
    first_conflict service new_job (filter_active_jobs existing_jobs)
      (get_affected_packages service new_job)
