-- ===== src/Http/Header.antt =====
-- http/header.h and http/header.cc: one `key:value` line.
pub mod Line
use dytech.Prelude.{ℕ, Bool, true, false, List, [], ◌∷◌, ◌++◌, Bytes, if◌then◌else◌}
use dytech.Text.{codes}
use dytech.Http.Constants.{k_colon, k_crlf}
use dytech.Http.Utils.{split, join}

pub record Header : Type 0 where
  pub key : Bytes
  pub value : Bytes
  pub valid : Bool

-- `Header(key, value)`.
unfoldable pub make_header : Bytes → Bytes → Header
make_header key value = record { key = key; value = value; valid = true }

-- The constructor from a line, on the tokens of the line.
unfoldable pub header_of : List Bytes → Header
header_of [] = record { key = []; value = []; valid = false }
header_of (k ∷ []) = record { key = []; value = []; valid = false }
header_of (k ∷ v ∷ []) = record { key = k; value = v; valid = true }
header_of (k ∷ v ∷ w ∷ ws) = record { key = k; value = join (v ∷ w ∷ ws) k_colon; valid = true }

-- `Header(line)`.
unfoldable pub parse_header : Bytes → Header
unfolding header_of
parse_header line = header_of (split line k_colon)

-- `Serialize`.
unfoldable pub serialize : Header → Bytes
serialize h = h.key ++ (k_colon ++ (h.value ++ k_crlf))

-- `SetValue`.
unfoldable pub set_value : Header → Bytes → Header
set_value h new_value = record h { value = new_value }

-- `operator<<`.
unfoldable pub print_header : Header → Bytes
unfolding serialize
print_header h =
    codes "HTTP Header contains:\n"
    ++ (codes "Key: "
        ++ (h.key
            ++ (codes "\nValue: "
                ++ (h.value
                    ++ (codes "\nIsValid: "
                        ++ ((if h.valid then codes "True" else codes "False")
                            ++ (codes "\nSerialize to: " ++ serialize h)))))))
