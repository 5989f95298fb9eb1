-- ===== src/Http/CgiRunner.antt =====
-- http/cgi_runner.h and http/cgi_runner.cc: what a resource name asks to run.
pub mod Parse
pub mod Run
use dytech.Prelude.{
  ℕ, ◌+◌, ◌-◌, ◌%◌, Bool, true, false, not, ◌||◌, Option, none, some, List, [], ◌∷◌, ◌++◌, map,
  Bytes, if◌then◌else◌, drop, size_mod,
}
use dytech.Text.{empty, find, find_from, substr}
use dytech.Outcome.{Outcome, returns, ◌>>=◌, ◌>>◌, assert}
use dytech.Http.Constants.{k_cgi_folder_name, k_separator}
use dytech.Http.Utils.{split, is_cgi_request}

pub record CgiRunner : Type 0 where
  pub cgi_program_path : Bytes
  pub cgi_arguments : List Bytes
  pub valid : Bool

-- `CGIRunner(path, arguments)`.
unfoldable pub make_cgi_runner : Bytes → List Bytes → CgiRunner
make_cgi_runner path arguments = record {
  cgi_program_path = path;
  cgi_arguments = arguments;
  valid = true;
}

-- `MakeInvalidCGIRunner`.
unfoldable pub make_invalid_cgi_runner : CgiRunner
unfolding make_cgi_runner
make_invalid_cgi_runner = record (make_cgi_runner [] []) { valid = false }

-- The number that a position is; `npos` is the largest `size_t`.
unfoldable pub position : Option ℕ → ℕ
position none = size_mod - 1
position (some n) = n

-- `str.substr(0, pos)`.
unfoldable pub prefix : Bytes → Option ℕ → Bytes
prefix str none = str
prefix str (some n) = substr str 0 n

-- `ParseCGIRunner` from the position of the folder's name on.
unfoldable pub parse_from : Bytes → ℕ → CgiRunner
unfolding prefix position make_cgi_runner
parse_from url cgi_pos =
    let cgi_separator = find_from url k_separator cgi_pos in
    make_cgi_runner (prefix url cgi_separator)
      (split (drop ((position cgi_separator + 1) % size_mod) url) k_separator)

-- `ParseCGIRunner`.
unfoldable pub parse_cgi_runner : Bytes → CgiRunner
unfolding parse_from make_invalid_cgi_runner
parse_cgi_runner url =
    if empty url || not (is_cgi_request url)
    then make_invalid_cgi_runner
    else elim (find url k_cgi_folder_name) [
      | none ↦ parse_from url (size_mod - 1)
      | some cgi_pos ↦ parse_from url cgi_pos
    ]

-- `BuildArgv`: the program's path and its arguments as C strings, and a null pointer.
unfoldable pub build_argv : List Bytes → Bytes → Outcome (List (Option Bytes))
build_argv cgi_arguments cgi_program_path = do
  assert (not (empty cgi_program_path))
  returns (
      some (cgi_program_path ++ 0 ∷ [])
      ∷ (map (λ a. some (a ++ 0 ∷ [])) cgi_arguments ++ none ∷ []))
