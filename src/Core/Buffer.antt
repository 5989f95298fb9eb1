-- ===== src/Core/Buffer.antt =====
-- core/buffer.h and core/buffer.cc: bytes pushed at both ends and popped up to a target. The
-- vector's spare capacity is the standard library's and is not part of the state.
pub mod Pop
use dytech.Prelude.{ℕ, ◌+◌, Option, none, some, ◌++◌, [], Bytes, length, take, drop}
use dytech.Text.{find, substr}

pub record Buffer : Type 0 where
  pub buf : Bytes

-- `Buffer(initial_capacity)`: room is reserved and nothing is stored.
unfoldable pub make_buffer : ℕ → Buffer
make_buffer initial_capacity = record { buf = [] }

-- The bytes at `data` may go on behind the first `size` of them.
unfoldable pub push_back_unsafe : Buffer → Bytes → ℕ → Buffer
push_back_unsafe b bytes size = record b { buf = b.buf ++ take size bytes }

unfoldable pub push_front_unsafe : Buffer → Bytes → ℕ → Buffer
push_front_unsafe b bytes size = record b { buf = take size bytes ++ b.buf }

-- `PushBack(const std::string&)`.
unfoldable pub push_back_string : Buffer → Bytes → Buffer
unfolding push_back_unsafe
push_back_string b str = push_back_unsafe b str (length str)

-- `PushBack(DynamicByteArray&&)`.
unfoldable pub push_back_array : Buffer → Bytes → Buffer
push_back_array b other = record b { buf = b.buf ++ other }

-- `PushFront(DynamicByteArray&&)`.
unfoldable pub push_front_array : Buffer → Bytes → Buffer
push_front_array b other = record b { buf = other ++ b.buf }

-- `PushFront(const std::string&)`.
unfoldable pub push_front_string : Buffer → Bytes → Buffer
unfolding push_front_unsafe
push_front_string b str = push_front_unsafe b str (length str)

unfoldable pub size : Buffer → ℕ
size b = length b.buf

unfoldable pub to_string_view : Buffer → Bytes
to_string_view b = b.buf

unfoldable pub clear : Buffer → Buffer
clear b = record b { buf = [] }

-- `FindAndPopTill`.
unfoldable pub find_and_pop_till : Buffer → Bytes → Option Bytes × Buffer
unfolding to_string_view substr
find_and_pop_till b target = elim (find (to_string_view b) target) [
  | none ↦ (none, b)
  | some pos ↦ (
    some (substr (to_string_view b) 0 (pos + length target)),
    record b { buf = drop (pos + length target) b.buf },
  )
]
