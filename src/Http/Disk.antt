-- ===== src/Http/Disk.antt =====
-- The functions of http/http_utils.cc that look at the file system, over what it answers.
use dytech.Prelude.{ℕ, ◌-◌, Bool, Option, ◌++◌, Bytes, length, take, replicate}
use dytech.Outcome.{Outcome, returns, ◌>>=◌, ◌>>◌, assert, or_terminate}

-- What `std::filesystem` and `std::ifstream` answer: whether a path exists, the size of the file
-- or `none` where the call throws (a directory), and the bytes that an opened file reads as, or
-- `none` where it does not open.
pub record Disk : Type 0 where
  pub exists : Bytes → Bool
  pub is_directory : Bytes → Bool
  pub file_size : Bytes → Option ℕ
  pub open_file : Bytes → Option Bytes

-- `IsFileExists`.
unfoldable pub is_file_exists : Disk → Bytes → Bool
is_file_exists disk path = disk.exists path

-- `IsDirectoryExists`.
unfoldable pub is_directory_exists : Disk → Bytes → Bool
is_directory_exists disk path = disk.is_directory path

-- `CheckFileSize`.
unfoldable pub check_file_size : Disk → Bytes → Outcome ℕ
unfolding is_file_exists
check_file_size disk path = do assert (is_file_exists disk path); or_terminate (disk.file_size path)

-- `LoadFile`: the buffer grows by the file's size; what the file is short of stays zero.
unfoldable pub load_file : Disk → Bytes → Bytes → Outcome Bytes
unfolding check_file_size
load_file disk path buffer = do
  file_size ← check_file_size disk path
  file ← or_terminate (disk.open_file path)
  returns (buffer ++ (take file_size file ++ replicate (file_size - length file) 0))
