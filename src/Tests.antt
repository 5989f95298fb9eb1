-- ===== src/Tests.antt =====
-- The theorems at concrete inputs, and runs of the functions at small ones.
mod Allocation
pub mod Cache
pub mod Sockets
pub mod Reactor
pub mod Serving
pub mod Arrival
pub mod Traffic
pub mod Logging
pub mod Units
use dytech.Prelude.{
  ℕ, ◌≡◌, ◌≢◌, ◌↔◌, ◌⊎◌, refl, true, false, ◌||◌, if◌then◌else◌, none, some, List, [], ◌∷◌, ◌++◌,
  Bytes, arith, All, length, take,
}
use dytech.Text.{
  find_last_not_of, find_first_not_of, one_of, codes, view, find, starts_with, empty, equal,
  to_string, find_first_not_of, find_last_not_of, one_of,
}
use dytech.Text.Decimal.{decimal_from, decimal-to_string}
use dytech.Core.Buffer.{
  Buffer, find_and_pop_till, push_back_array, push_back_string, to_string_view, make_buffer,
}
use dytech.Core.Buffer.Pop.{Popped, find_and_pop_till-Popped, find_and_pop_till-push_back}
use dytech.Core.Connection.{
  Connection, Recv, got, failed, Sent, wrote, refused, eintr, eagain, other, make_connection,
  receive, send, after_recv_error, is_fatal, clear_write_buffer, write_string,
}
use dytech.Core.Connection.Receive.{arrivals, store, receive-arrivals}
use dytech.Core.Connection.Send.{total, content, send_complete, send-IsFatal}
use dytech.Http.Constants.{k_colon, k_crlf, k_space, k_separator}
use dytech.Http.Utils.{split, join, trim, split_loop, to_upper_char}
use dytech.Http.Utils.Split.{split_loop_ends}
use dytech.Http.Utils.Split.Laws.{Lacks, Rejoins, join-split}
use dytech.Http.Utils.Trim.{drop_leading, trim-drop_leading}
use dytech.Http.Header.{make_header, parse_header}
use dytech.Http.Request.{parse_request}
use dytech.Http.Request.Valid.{Checked, parse_request-Checked}
use dytech.Http.Disk.{Disk, is_file_exists, check_file_size}
use dytech.Http.Response.{Response, make_response, file_response, serialize_response, change_header}
use dytech.Http.Response.Laws.{header_value, change_header-header_value}
use dytech.Http.Response.Lines.{Status, head_lines, status_ok, make_response-split}
use dytech.Http.CgiRunner.{make_cgi_runner, parse_cgi_runner}
use dytech.Http.CgiRunner.Parse.{parse_cgi_runner-no_separator}

abbrev two_requests : Buffer
two_requests = record { buf = codes "GET / HTTP/1.1\r\n\r\nGET" }

abbrev ending : Bytes
ending = codes "\r\n\r\n"

find_and_pop_till-Popped_example :
    Popped two_requests.buf ending (find_and_pop_till two_requests ending)
find_and_pop_till-Popped_example = find_and_pop_till-Popped two_requests ending

find_and_pop_till-push_back_example :
    find_and_pop_till (push_back_array two_requests (codes " /a")) ending ≡ (
      some (codes "GET / HTTP/1.1\r\n\r\n"),
      push_back_array (find_and_pop_till two_requests ending).1 (codes " /a"),
    )
unfolding find_and_pop_till find starts_with empty
find_and_pop_till-push_back_example =
    find_and_pop_till-push_back two_requests ending (codes "GET / HTTP/1.1\r\n\r\n") (codes " /a")
      refl

abbrev arriving : List Recv
arriving = got (codes "GET") ∷ failed eintr ∷ got (codes " /") ∷ []

receive-arrivals_example :
    receive (arriving ++ failed eagain ∷ got (codes "x") ∷ []) (make_connection 7)
    ≡ some (
      (length (arrivals arriving), false),
      store (make_connection 7) (arrivals arriving),
      got (codes "x") ∷ [],
    )
unfolding after_recv_error
receive-arrivals_example =
    receive-arrivals arriving (failed eagain) (got (codes "x") ∷ []) false (make_connection 7)
      ((λ e. cc), (refl, ((λ e. cc), tt))) refl

abbrev answering : Connection
answering = write_string (make_connection 7) (codes "200 OK")

abbrev slow : List Sent
slow = wrote 2 eintr ∷ refused eagain ∷ wrote 4 eintr ∷ []

send_complete_example :
    (rest : List Sent) × (send slow answering
      ≡ some (clear_write_buffer answering, content answering, rest))
unfolding is_fatal total write_string make_connection push_back_string to_string_view make_buffer
send_complete_example = send_complete slow answering (refl, (refl, (refl, tt))) (omega arith)

abbrev broken : List Sent
broken = wrote 2 eintr ∷ refused eagain ∷ []

send-IsFatal_example :
    send (broken ++ refused (other 32) ∷ []) answering
    ≡ some (clear_write_buffer answering, take (total broken) (content answering), [])
unfolding is_fatal total write_string make_connection push_back_string to_string_view make_buffer
send-IsFatal_example =
    send-IsFatal broken (refused (other 32)) [] answering (refl, (refl, tt)) (omega arith) refl

decimal-to_string_example : decimal_from 0 (to_string 1234) ≡ 1234
decimal-to_string_example = decimal-to_string 1234 (omega arith)

split_loop_ends_example :
    ((k_space ≢ [])
      × (split_loop 8 (codes "a b c  ") k_space 0 [] ≡ some (split (codes "a b c  ") k_space)))
    ⊎ ((k_space ≡ []) × ((f : ℕ) → split_loop f (codes "a b c  ") k_space 0 [] ≡ none))
split_loop_ends_example = split_loop_ends (codes "a b c  ") k_space

join-split_example :
    All (Lacks k_colon) (split (codes "a:b:") k_colon)
    × Rejoins k_colon (codes "a:b:") (split (codes "a:b:") k_colon)
join-split_example = join-split (codes "a:b:") k_colon (λ e. cc) (λ e. cc)

trim-drop_leading_example : trim (view (codes "  a ")) k_space ≡ codes "a "
unfolding drop_leading one_of
trim-drop_leading_example = trim-drop_leading (codes "  a ") k_space (omega arith)

parse_request-Checked_example : Checked (parse_request (codes "GET / HTTP/1.1\r\n\r\n"))
parse_request-Checked_example = parse_request-Checked (codes "GET / HTTP/1.1\r\n\r\n")

abbrev sent_headers : List (Bytes × Bytes)
sent_headers = (codes "Host", codes " a") ∷ (codes "Connection", codes " Keep-Alive") ∷ []

-- One directory, which has no size, and one file.
abbrev small_disk : Disk
small_disk = record {
  exists = λ p. equal p (codes "/www") || equal p (codes "/www/a.css");
  is_directory = λ p. equal p (codes "/www");
  file_size = λ p. if equal p (codes "/www/a.css") then some 3 else none;
  open_file = λ p. if equal p (codes "/www/a.css") then some (codes "abc") else none;
}

abbrev styled : Response
styled = file_response (codes "200 OK") true (codes "/www/a.css") 3

make_response-split_example :
    (styled.status_line ≡ codes "HTTP/1.1 200 OK")
    × All (λ l. l ≢ []) (head_lines styled)
    × (split (serialize_response styled [] ++ codes "a\r\n\r\nb") k_crlf
        ≡ head_lines styled ++ ([] ∷ split (codes "a\r\n\r\nb") k_crlf))
unfolding make_response is_file_exists check_file_size equal
make_response-split_example =
    make_response-split small_disk status_ok true (some (codes "/www/a.css")) styled
      (codes "a\r\n\r\nb") refl

parse_cgi_runner-no_separator_example :
    parse_cgi_runner (codes "cgi-bin/env")
    ≡ make_cgi_runner (codes "cgi-bin/env") (codes "cgi-bin/env" ∷ [])
unfolding find starts_with empty
parse_cgi_runner-no_separator_example =
    parse_cgi_runner-no_separator (codes "cgi-bin/env") 0 refl refl
