-- ===== src/Lib.antt =====
-- grpm, a package manager for Gentoo: its core logic, with the theorems that make it correct.
--
-- The program resolves what to install from ebuild repositories: internal/pkg has the values that all
-- other parts share (versions, constraints, slots, USE flags, REQUIRED_USE), internal/config and
-- internal/mask read what the administrator and the profiles say about packages, internal/cache keeps
-- the metadata of ebuilds between runs, internal/solver chooses packages, internal/state knows what is
-- installed and selected, internal/daemon runs jobs and builds packages in parallel, and internal/install merges
-- them. Modelled are internal/pkg, as far as listed, the atoms and the masks, the cache in memory, the
-- dependency graph with its cycle detector, depclean, the database of installed packages, the package
-- sets, the queue of jobs, the tasks of the scheduler, safe paths, the queries of repositories, and
-- the file collisions and protected files of the installer.
--
-- Base holds what the modules share: lists and texts over native numbers (Base/Lists, Base/Strings),
-- Boolean tests (Base/Tests), maps as association lists (Base/Assoc), Go's int with its sign
-- (Base/Int), strconv.Atoi (Base/Decimal), strings.Fields (Base/Fields), sort.Strings (Base/Sort), path/filepath (Base/Paths), comparisons
-- and their laws (Base/Order, Base/Padded), and a value with an error (Base/Result).
--
-- Cache/Entry is internal/cache/entry.go and Cache/Memory is internal/cache/memory.go: MemoryCache is
-- a record of the same fields, with the map and the order of use; get, put, put_batch, delete,
-- invalidate, invalidate_all and close are its methods. Each is a check of the closed flag and one or
-- two critical sections under the mutex (touch, store, drop_if_there, drop_stale, clear, release).
-- Interleaving runs these sections in any order, as several goroutines may; Order, Lru, Calls and
-- PutGet are about one goroutine; Panic is about Close. A map that Close has set to nil is marked. Not
-- modelled are Stats, the SQLite cache and the choice between the two caches.
--
-- Pkg/Version is internal/pkg/version.go: compareVersions and its helpers by clauses on lists in place
-- of indices. Pkg/Version/Parse is parseVersion and NewVersion; what the regular expressions of the
-- coregex package return is a parameter (VersionRegexes) without hypotheses.
--
-- Pkg/RequiredUse is internal/pkg/required_use.go: the tokens from an index on stand for the list of
-- tokens and the index. The evaluation recurses on fuel, twice the number of tokens and one, since a
-- token costs at most two nested calls (Fuel). Syntax has expressions as trees with the reading
-- of the validator, Tokens, Skip, Steps and Correct follow the evaluation of their tokens, Render goes
-- from texts to verdicts, and Pms has what docs/pms makes of the trees, which differs for conditional
-- groups that are off inside the groups of operators, and for empty groups.
--
-- Pkg/Use is internal/pkg/use_resolver.go; the configuration, an interface of the source, is a record
-- of what its methods return. Pkg/VersionConstraint and Pkg/Constraint are internal/pkg/constraint.go,
-- with legacyParseComponents of version.go, whose regular expression is a parameter as well.
-- Pkg/Package is internal/pkg/package.go, over the type of the atoms of blockers.
--
-- Pkg/Containment is internal/pkg/pathutil.go with the names of categories and packages of
-- internal/pkg/atom.go, the rest of which is not modelled: Below is about Clean on plain names, Stays
-- about the joined paths. Which characters beyond ASCII are letters is an argument.
--
-- Daemon/Jobs is internal/daemon/job.go: the jobs are kept by ID, and the channel and the workers are
-- lists of IDs. Steps has the queue as a transition system, in which Submit, the beginning and the end
-- of executeJob, and CancelJob are one step each, so that it does not show what happens between their
-- critical sections. Serial has submissions one after the other,
-- with other steps between the conflict check of a Submit and its storing, and Race two calls of Submit
-- at once. Safe and Runs are about all reachable states, Stuck about a full channel.
-- Daemon/Conflicts is internal/daemon/conflict_detector.go, which Submit asks; the service that
-- resolves packages is a parameter without hypotheses. Times, progress and shutdown are not modelled.
--
-- Daemon/Scheduler is internal/daemon/scheduler.go, as far as it keeps tasks and their dependencies and
-- queues the dependents of a task that has been built; the channel of ready tasks is a list with its
-- capacity. Daemon/Topological is its topologicalSort, with the number of tasks as fuel for the loop
-- over the queue. The workers, failures and statistics are not modelled.
--
-- Solver/Graph is internal/solver/graph.go, and Solver/Graph/Cycles the DetectCycles of
-- internal/solver/cycle_detector.go. The flags that the search leaves in the nodes are passed on with
-- the map of nodes; it takes fuel, one more than there are nodes, since every nested call finds a node
-- that no call has found before. Colours, Walks, Search, Node and Detects go from one node to the whole
-- graph. Depths, printing and GetAllCycles are not modelled.
--
-- Solver/Depclean is internal/solver/depclean.go, from the database and the world set to the orphans:
-- Search is the search for needed packages, with the number of marked atoms and of dependencies as
-- fuel (Fuel), Orphans the rest of Calculate, Correct and Safe the theorems. Solver/BaseAtom is its
-- extractBaseAtom. Depclean takes the packages from State/Database, which is
-- internal/state/database.go without input and output, and the world set from State/Sets, which is
-- internal/state/sets.go: the world file is its bytes, and the packages of the profile are a field of
-- the manager. State/Sets/Updates is CalculateUpdates, over a function that loads packages; its
-- recursion over dependencies takes fuel, of which any amount will do (Deep).
--
-- Repo/Specification is internal/repo/specification.go, with its implementations of the interface as the
-- constructors of a data type, over Pkg/VersionConstraint.
--
-- Config/Atom is internal/config/atom.go, and Mask is internal/mask/manager.go with the lines of the
-- mask files as input: Mask queries its two indices with Config/Atom, and Mask/Decides says what comes
-- out of the four lists of entries.
--
-- Install/Collision is internal/install/collision.go: its detector asks State/Database for the owner of a
-- file, and the paths that exist are an argument; Names is about its extractPackageName, and Safe goes on from the theorem of the database.
--
-- Install/Protect is internal/install/protect.go over a file system of paths, with the paths that cannot
-- be created for another reason; Base/Paths has the functions of path/filepath that it calls. The file
-- system is an argument, and two installers are one after the other, as the lock makes them. Comparing
-- files by their hashes is not modelled.
--
-- Texts are lists of character codes, and lower case is that of ASCII letters. Go's int is an integer
-- without bounds (Pkg/Version/Parse/Bounds is about the range of the version comparison), and the
-- counters of the cache wrap around. Maps are iterated in the order of their association list.
--
-- Not modelled are the SAT solver and the resolver around it, the atoms of dependencies, the expansion
-- of sets, the merging of the installer, profiles, and what is input and output
-- only: the command line, ebuild execution, fetching, binary packages, the VarDB files, and the
-- generated RPC code.
pub mod Base
pub mod Cache
pub mod Config
pub mod Daemon
pub mod Install
pub mod Mask
pub mod Pkg
pub mod Repo
pub mod Solver
pub mod State
