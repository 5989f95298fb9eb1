-- ===== src/Http/CgiRunner/Parse.antt =====
-- Which program and which arguments a resource name stands for.
use dytech.Prelude.{
  ℕ, ◌+◌, ◌<◌, ◌≤◌, ◌≡◌, ◌≢◌, sym, ap, ◌∙◌, subst, true, none, some, [], ◌∷◌, ◌++◌, Bytes, arith,
  length, drop, size_mod, append_assoc, length-append, take-append, drop-append_le, length-drop,
}
use native.Mathlib.Nat.{mod-eq_of_lt}
use dytech.Text.{find, find_from, empty, substr}
use dytech.Text.Find.{find_fits, find-append, find-drop-none, find_nil}
use dytech.Http.Constants.{k_cgi_folder_name, k_separator}
use dytech.Http.Utils.{split, is_cgi_request}
use dytech.Http.Utils.Split.{last, split-Pieces}
use dytech.Http.Utils.Split.Laws.{Lacks, Clean-char, drop_two}
use dytech.Http.CgiRunner.{make_cgi_runner, prefix, position, parse_from, parse_cgi_runner}

is_cgi_request-some :
    (url : Bytes) (p : ℕ) → find url k_cgi_folder_name ≡ some p → is_cgi_request url ≡ true
unfolding is_cgi_request
is_cgi_request-some url p e = rw (e, is_cgi_request)

-- A name that holds the folder is looked at from there on.
parse_cgi_runner-from :
    (url : Bytes) (p : ℕ)
    → find url k_cgi_folder_name ≡ some p
    → parse_cgi_runner url ≡ parse_from url p
unfolding parse_cgi_runner empty
parse_cgi_runner-from [] p e = absurd (unfold find in cc)
parse_cgi_runner-from (c ∷ cs) p e = rw (is_cgi_request-some (c ∷ cs) p e, e, parse_cgi_runner)

-- The first separator, when the text before it holds none.
find_from-separator :
    (path rest : Bytes) (p : ℕ)
    → Lacks k_separator path
    → p ≤ length path
    → find_from (path ++ (k_separator ++ rest)) k_separator p ≡ some (length path)
unfolding find_from
find_from-separator path rest p lacks within =
    let tail : Bytes = drop p path in
    let found : find (tail ++ (k_separator ++ rest)) k_separator ≡ some (length tail) =
      ap (λ x. find x k_separator) (sym (append_assoc tail k_separator rest))
      ∙ find-append (tail ++ k_separator) rest k_separator (length tail)
          (Clean-char b'&' tail (find-drop-none p path k_separator (λ e. cc) lacks)) in
    rw (drop-append_le p path (k_separator ++ rest) within, found)
      (ground (arith, length-append path (k_separator ++ rest), length-drop p path))

-- A name made of a path in the folder and, behind the first separator, more text: the path is
-- the program's, and the text is cut at the separators into the arguments.
parse_cgi_runner-arguments :
    (path rest : Bytes) (p : ℕ)
    → find path k_cgi_folder_name ≡ some p
    → Lacks k_separator path
    → length path + 1 < size_mod
    → parse_cgi_runner (path ++ (k_separator ++ rest))
      ≡ make_cgi_runner path (split rest k_separator)
parse_cgi_runner-arguments path rest p e lacks small =
    parse_cgi_runner-from _ p (find-append path (k_separator ++ rest) k_cgi_folder_name p e)
    ∙ unfold parse_from prefix position substr in
      (rw
        (find_from-separator path rest p lacks
          (omega (arith, find_fits path k_cgi_folder_name p e)))
        (rw (
          mod-eq_of_lt small,
          take-append path (k_separator ++ rest),
          drop_two path k_separator rest,
        )))

-- Where the name holds no separator at all, the program gets its own whole name as an argument:
-- the position `npos`, one further, is position 0 again.
pub parse_cgi_runner-no_separator :
    (url : Bytes) (p : ℕ)
    → find url k_cgi_folder_name ≡ some p
    → Lacks k_separator url
    → parse_cgi_runner url ≡ make_cgi_runner url (url ∷ [])
parse_cgi_runner-no_separator url p e lacks =
    let none_behind : find_from url k_separator p ≡ none =
      unfold find_from in rw (find-drop-none p url k_separator (λ q. cc) lacks) (ground arith) in
    let ne : url ≢ [] = λ q.
      subst (λ x. find x k_cgi_folder_name ≡ some p → ⊥) (sym q)
        (λ f. cc (find_nil k_cgi_folder_name (λ w. cc))) e in
    parse_cgi_runner-from url p e
    ∙ unfold parse_from prefix position in
      (rw none_behind (ap (make_cgi_runner url) (split-Pieces (λ q. cc) (last ne lacks))))
