-- ===== src/Tests/Units/Buffer.antt =====
-- test/core/buffer_test.cc.
use dytech.Prelude.{◌≡◌, refl, Bool, true, [], ◌∷◌, ◌++◌, Bytes, length, ◌==◌}
use dytech.Text.{codes, equal, find, starts_with, empty}
use dytech.Core.Buffer.{
  Buffer, make_buffer, push_back_unsafe, push_front_unsafe, push_back_string, push_front_string,
  push_back_array, push_front_array, size, to_string_view, clear, find_and_pop_till,
}
use dytech.Tests.Units.{checks, equal_optional}

abbrev greeting : Bytes
greeting = codes "Greeting from beginning!"

abbrev farewell : Bytes
farewell = codes "Farewell from end~"

abbrev fresh : Buffer
fresh = make_buffer 1024

-- Appending a C string from both sides.
abbrev pub arrays_from_both_sides : Bool
arrays_from_both_sides =
    let back = push_back_unsafe fresh greeting (length greeting) in
    let front = push_front_unsafe back farewell (length farewell) in
    checks (
      (size fresh == 0)
      ∷ equal (to_string_view back) greeting
      ∷ equal (to_string_view front) (farewell ++ greeting)
      ∷ (size (clear front) == 0)
      ∷ [])

-- Appending a `std::string` from both sides.
abbrev pub strings_from_both_sides : Bool
strings_from_both_sides =
    let front = push_front_string fresh greeting in
    let back = push_back_string front farewell in
    checks (
      (size fresh == 0)
      ∷ equal (to_string_view front) greeting
      ∷ equal (to_string_view back) (greeting ++ farewell)
      ∷ (size (clear back) == 0)
      ∷ [])

abbrev msg : Bytes
msg =
    codes
      "GET / HTTP/1.1\r\nConnection: Keep-Alive\r\nUser-Agent: Mozilla/4.0 (compatible; MSIE5.01; Windows NT)\r\nAccept-Language: en-us\r\n\r\n"

abbrev next_msg : Bytes
next_msg = codes "Something belongs to next message"

-- Popping up to the first target.
abbrev pub pops_first_message : Bool
pops_first_message =
    let buf = push_back_string (push_back_string fresh msg) next_msg in
    let (op_str, buf) = find_and_pop_till buf (codes "\r\n\r\n") in
    checks (equal_optional op_str msg ∷ equal (to_string_view buf) next_msg ∷ [])

arrays_from_both_sides_passes : arrays_from_both_sides ≡ true
unfolding make_buffer push_back_unsafe push_front_unsafe size to_string_view clear equal
arrays_from_both_sides_passes = refl

strings_from_both_sides_passes : strings_from_both_sides ≡ true
unfolding make_buffer push_back_string push_front_string push_back_array push_front_array size
    to_string_view clear equal push_back_unsafe push_front_unsafe
strings_from_both_sides_passes = refl

pops_first_message_passes : pops_first_message ≡ true
unfolding make_buffer push_back_string push_back_unsafe push_back_array find_and_pop_till
    to_string_view equal find starts_with empty
pops_first_message_passes = refl
