-- ===== src/Http/CgiRunner/Run.antt =====
-- `CGIRunner::Run` of http/cgi_runner.cc: a child process runs the program, with its output linked
-- to a file that the parent reads and deletes. The file is one of the running thread: its bytes, or
-- `none` where it is not there. `fork` returns twice; what the child does is what the file has got
-- when the parent goes on.
use dytech.Prelude.{
  ◌≡◌, ◌≢◌, refl, ap, ◌∙◌, Bool, true, false, not, Option, none, some, List, [], ◌∷◌, ◌++◌, map,
  Bytes, if◌then◌else◌, length, arith, take_all, append-nil, replicate,
}
use native.Mathlib.Nat.{sub_self}
use dytech.Text.{codes, equal, empty}
use dytech.Text.Find.{equal_iff}
use dytech.Outcome.{Outcome, returns, terminates, ◌>>=◌, ◌>>◌, assert}
use dytech.Http.Constants.{k_cgi_prefix, k_underscore}
use dytech.Http.Disk.{Disk, load_file, check_file_size, is_file_exists}
use dytech.Http.CgiRunner.{CgiRunner, build_argv}

-- What the operating system answers: does `open` create or open the file, does `fork` succeed and
-- does `waitpid`; and the bytes that the program of a path writes to its standard output under
-- these arguments, none where `execve` fails.
pub record Os : Type 0 where
  pub opens : Bool
  pub forks : Bool
  pub harvests : Bool
  pub output : Bytes → List (Option Bytes) → Bytes

-- The bytes of a file that may not be there.
abbrev pub bytes_of : Option Bytes → Bytes
bytes_of none = []
bytes_of (some bytes) = bytes

-- `O_CREAT | O_APPEND`: the file is created, or keeps its bytes; nothing truncates it.
unfoldable pub open_shared : Option Bytes → Option Bytes
open_shared file = some (bytes_of file)

-- The child process: the program's output goes behind the file's bytes. The parent does not see
-- whether the child was aborted by a failed assertion.
unfoldable pub run_child : Os → CgiRunner → Option Bytes → Option Bytes
run_child os r file = elim (build_argv r.cgi_arguments r.cgi_program_path) [
  | terminates ↦ file
  | returns argv ↦ some (bytes_of file ++ os.output r.cgi_program_path argv)
]

-- The file system as far as the shared file goes.
unfoldable pub shared_disk : Bytes → Option Bytes → Disk
shared_disk name none = record {
  exists = λ p. false;
  is_directory = λ p. false;
  file_size = λ p. none;
  open_file = λ p. none;
}
shared_disk name (some bytes) = record {
  exists = λ p. equal p name;
  is_directory = λ p. false;
  file_size = λ p. if equal p name then some (length bytes) else none;
  open_file = λ p. if equal p name then some bytes else none;
}

-- `DeleteFile`: whether there was a file, and what is left of it.
unfoldable pub delete_file : Option Bytes → Bool × Option Bytes
delete_file none = (false, none)
delete_file (some bytes) = (true, none)

unfoldable pub shared_file_name : Bytes → Bytes
shared_file_name thread_id = k_cgi_prefix ++ (k_underscore ++ (thread_id ++ codes ".txt"))

-- The parent's part, behind `fork`.
unfoldable pub run_parent : Os → Bytes → Option Bytes → Outcome (Bytes × Option Bytes)
unfolding shared_disk delete_file
run_parent os name file =
    if not os.harvests then returns (codes "fail to harvest child by waitpid()", file) else (do
      cgi_result ← load_file (shared_disk name file) name []
      returns (cgi_result, (delete_file file).1))

-- `Run` on the thread `thread_id`: the result, and the file that it leaves behind.
unfoldable pub run : Os → Bytes → CgiRunner → Option Bytes → Outcome (Bytes × Option Bytes)
unfolding open_shared run_child run_parent shared_file_name
run os thread_id r file = do
  assert r.valid
  if not os.opens
      then returns (codes "fail to create/open the file " ++ shared_file_name thread_id, file)
      else if not os.forks
      then returns (codes "fail to fork()", open_shared file)
      else run_parent os (shared_file_name thread_id) (run_child os r (open_shared file))

-- The arguments that the program gets: its own path, and those of the request.
abbrev pub argv_of : CgiRunner → List (Option Bytes)
argv_of r =
    some (r.cgi_program_path ++ 0 ∷ [])
    ∷ (map (λ a. some (a ++ 0 ∷ [])) r.cgi_arguments ++ none ∷ [])

load_file-shared_disk :
    (name bytes : Bytes) → load_file (shared_disk name (some bytes)) name [] ≡ returns bytes
unfolding load_file check_file_size is_file_exists shared_disk
load_file-shared_disk name bytes =
    let same : equal name name ≡ true = (equal_iff name name).1 refl in
    rw (same, take_all (length bytes) bytes (omega arith))
      (ap (λ n. returns (bytes ++ replicate n 0)) (sub_self (length bytes))
        ∙ ap returns (append-nil bytes))

empty-false : (s : Bytes) → s ≢ [] → empty s ≡ false
unfolding empty
empty-false [] ne = absurd (ne refl)
empty-false (c ∷ s) ne = refl

run_child-argv_of :
    (os : Os) (r : CgiRunner) (file : Option Bytes)
    → r.cgi_program_path ≢ []
    → run_child os r file ≡ some (bytes_of file ++ os.output r.cgi_program_path (argv_of r))
unfolding run_child build_argv
run_child-argv_of os r file ne = rw (empty-false r.cgi_program_path ne, run_child, build_argv)

-- A child that could be started and was not harvested.
abbrev pub Lost : Os → Type 0
Lost os = (os.opens ≡ true) × (os.forks ≡ true) × (os.harvests ≡ false)

-- One that was.
abbrev pub Harvested : Os → Type 0
Harvested os = (os.opens ≡ true) × (os.forks ≡ true) × (os.harvests ≡ true)

-- A runner that `ParseCGIRunner` accepts, for a program with a name.
abbrev pub Runnable : CgiRunner → Type 0
Runnable r = (r.valid ≡ true) × (r.cgi_program_path ≢ [])

module _ (os : Os) (thread_id : Bytes) (r : CgiRunner) (file : Option Bytes) (ok : Runnable r) where
  -- A valid runner whose process is started and harvested returns what the thread's file held
  -- before, with the program's output for its path and arguments behind it, and leaves no file.
  pub run-output :
      Harvested os
      → run os thread_id r file
        ≡ returns (bytes_of file ++ os.output r.cgi_program_path (argv_of r), none)
  unfolding run run_parent open_shared
  run-output h = rw (
    ok.0,
    h.0,
    h.1,
    run_child-argv_of os r (some (bytes_of file)) ok.1,
    h.2,
    load_file-shared_disk,
  )

  -- Where the child cannot be harvested, its output stays in the file.
  run-leaves_output :
      Lost os
      → run os thread_id r file
        ≡ returns (
          codes "fail to harvest child by waitpid()",
          some (bytes_of file ++ os.output r.cgi_program_path (argv_of r)),
        )
  unfolding run run_parent open_shared
  run-leaves_output h = rw (ok.0, h.0, h.1, run_child-argv_of os r (some (bytes_of file)) ok.1, h.2)

-- A run whose child cannot be harvested leaves its output to the next run on the same thread, which
-- returns it in front of its own.
pub run-run :
    (os os' : Os) (thread_id : Bytes) (r r' : CgiRunner)
    → Runnable r
    → Runnable r'
    → Lost os
    → Harvested os'
    → (run os thread_id r none >>= λ p. run os' thread_id r' (p.1))
      ≡ returns (
        os.output r.cgi_program_path (argv_of r) ++ os'.output r'.cgi_program_path (argv_of r'),
        none,
      )
run-run os os' thread_id r r' ok ok' lost harvested =
    rw (run-leaves_output os thread_id r none ok lost)
      (run-output os' thread_id r' (some (os.output r.cgi_program_path (argv_of r))) ok' harvested)
