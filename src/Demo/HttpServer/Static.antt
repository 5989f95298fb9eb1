-- ===== src/Demo/HttpServer/Static.antt =====
-- What the server answers to a request for a file: the announced length is that of the body, whether
-- the content comes from the cache or from the disk.
use dytech.Prelude.{
  ℕ, ◌≡◌, refl, ap, ◌∙◌, Bool, true, false, Option, none, some, List, [], ◌++◌, arith, Bytes, All,
  length, take_all, replicate, append-nil, append_assoc,
}
use native.Mathlib.Nat.{sub_self}
use dytech.Text.{equal, to_string}
use dytech.Outcome.{returns}
use dytech.Core.Cache.Entries.{Entry, find_entry, touch, insert_entry}
use dytech.Core.Cache.EachEntry.{find_entry-All, touch-All, insert_entry-All}
use dytech.Core.Cache.Lru.{cached, or_nothing}
use dytech.Http.Constants.{Method, k_response_status_ok, k_header_content_length}
use dytech.Http.Disk.{Disk, is_file_exists, check_file_size, load_file}
use dytech.Http.Header.{make_header}
use dytech.Http.Request.{Request, parse_request}
use dytech.Http.Response.{make_response, make_200_response, file_response, serialize_response}
use dytech.Http.Response.Laws.{header_value}
use dytech.Demo.ResourceCache.{ResourceCache}
use dytech.Http.Utils.{is_cgi_request}
use dytech.Demo.HttpServer.{
  Site, handle_request, World, load_uncached, load_content, handle_static_resource_request,
}

-- The file is there, and reads as these bytes, as many as its size.
pub record IsFile (disk : Disk) (path bytes : Bytes) : Type 0 where
  pub there : disk.exists path ≡ true
  pub sized : disk.file_size path ≡ some (length bytes)
  pub opened : disk.open_file path ≡ some bytes

load_file-IsFile :
    {disk : Disk} {path bytes : Bytes}
    → IsFile disk path bytes
    → load_file disk path [] ≡ returns bytes
unfolding load_file check_file_size is_file_exists
load_file-IsFile {bytes = bytes} f =
    rw (f.there, f.sized, f.opened, take_all (length bytes) bytes (omega arith))
      (ap (λ n. returns (bytes ++ replicate n 0)) (sub_self (length bytes))
        ∙ ap returns (append-nil bytes))

-- Every entry of the cache is what its file reads as.
abbrev pub IsCoherent : Disk → List Entry → Type 0
IsCoherent disk = All (λ e. load_file disk (e.0) [] ≡ returns (e.1))

-- The head of a response to a request for a file of this size.
unfoldable pub head_for : Request → Bytes → ℕ → Bytes
head_for request path size =
    serialize_response (file_response k_response_status_ok request.should_close path size) []

-- What follows the head: the file, for GET.
abbrev pub body_for : Method → Bytes → Bytes
body_for Method.get bytes = bytes
body_for _ bytes = []

module _ (cache : ResourceCache) (disk : Disk) (path bytes : Bytes) (s : cache.State)
    (l : List Entry) (file : IsFile disk path bytes) (holds : cache.Contains s l)
    (coherent : IsCoherent disk l) where
  load_uncached-IsCoherent :
      (found : Option Bytes)
      → find_entry path l ≡ found
      → (s' : cache.State) → cache.Contains s' (touch path l)
      → (s'' : cache.State) × (l'' : List Entry) × (load_uncached cache disk path
            (cached found, or_nothing found, s')
          ≡ returns (bytes, s''))
        × cache.Contains s'' l''
        × IsCoherent disk l''
  unfolding load_uncached
  load_uncached-IsCoherent (some v) e s' h =
      let P = λ (e : Entry). load_file disk (e.0) [] ≡ returns (e.1) in
      let read : load_file disk path [] ≡ returns v = find_entry-All P path v l coherent e in
      let same : v ≡ bytes = ground (arith, load_file-IsFile file) in
      (s', touch path l, ap (λ z. returns (z, s')) same, h, touch-All P path l coherent)
  load_uncached-IsCoherent none e s' h =
      let P = λ (e : Entry). load_file disk (e.0) [] ≡ returns (e.1) in
      let (s'', run, h') = cache.insert_lem s' (touch path l) path bytes h in
      (
        s'',
        (insert_entry cache.capacity path bytes (touch path l)).1,
        rw (load_file-IsFile file, run),
        h',
        insert_entry-All P cache.capacity path bytes (touch path l) (touch-All P path l coherent)
            (load_file-IsFile file),
      )

  load_content-IsCoherent :
      (method : Method)
      → (s' : cache.State) × (l' : List Entry) × (load_content cache disk method path s
          ≡ returns (body_for method bytes, s'))
        × cache.Contains s' l'
        × IsCoherent disk l'
  unfolding load_content
  load_content-IsCoherent Method.get =
      let (s', run, h) = cache.load_lem s l path [] holds in
      let (s'', l'', run', h', c') = load_uncached-IsCoherent (find_entry path l) refl s' h in
      (s'', l'', rw run run', h', c')
  load_content-IsCoherent Method.head = (s, l, refl, holds, coherent)
  load_content-IsCoherent Method.unsupported = (s, l, refl, holds, coherent)

announced_size :
    (close : Bool) (path : Bytes) (size : ℕ)
    → header_value k_header_content_length
        (file_response k_response_status_ok close path size).headers
      ≡ some (to_string size)
unfolding header_value file_response make_header equal
announced_size close path size = refl

make_200_response-IsFile :
    (disk : Disk) (path bytes : Bytes) (close : Bool)
    → IsFile disk path bytes
    → make_200_response disk close (some path)
      ≡ returns (file_response k_response_status_ok close path (length bytes))
unfolding make_200_response make_response check_file_size is_file_exists
make_200_response-IsFile disk path bytes close f = rw (f.there, f.sized)

handle_static-IsCoherent :
    (cache : ResourceCache) (disk : Disk) (request : Request) (path bytes : Bytes)
    → (w : World cache) (l : List Entry) (buf : Bytes) → IsFile disk path bytes
    → cache.Contains w.resources l
    → IsCoherent disk l
    → (w' : World cache) × (l' : List Entry) × (handle_static_resource_request cache disk request
          path w buf
        ≡ returns (
          request.should_close,
          buf ++ (head_for request path (length bytes) ++ body_for request.method bytes),
          w',
        ))
      × (header_value k_header_content_length
            (file_response k_response_status_ok request.should_close path (length bytes)).headers
          ≡ some (to_string (length bytes)))
      × cache.Contains w'.resources l'
      × IsCoherent disk l'
      × (w'.shared_file ≡ w.shared_file)
unfolding handle_static_resource_request is_file_exists head_for serialize_response
handle_static-IsCoherent cache disk request path bytes w l buf f holds coherent =
    let (s', l', run, h', c') =
      load_content-IsCoherent cache disk path bytes w.resources l f holds coherent request.method in
    (
      record w { resources = s' },
      l',
      rw (f.there, make_200_response-IsFile disk path bytes request.should_close f, run)
          (ap (λ z. returns (request.should_close, z, record w { resources = s' }))
            (append_assoc buf (head_for request path (length bytes))
              (body_for request.method bytes))),
      announced_size request.should_close path (length bytes),
      h',
      c',
      refl,
    )

-- What is asked for by the text of a request on a site: a file that is there, not a CGI program.
pub record Requests (site : Site) (text path bytes : Bytes) : Type 0 where
  pub valid : (parse_request text).is_valid ≡ true
  pub located : site.serving_directory ++ (parse_request text).resource_url ≡ path
  pub plain : is_cgi_request path ≡ false
  pub file : IsFile site.disk path bytes

-- A valid request for a file is answered, whether its content is cached or not, by a head that
-- announces the file's size and, for GET only, by exactly the file's bytes. The cache then again holds
-- only what the files read as, the connection is to be closed exactly where the request says so, and
-- nothing else changes.
pub handle_request-IsCoherent :
    (cache : ResourceCache) (site : Site) (text path bytes : Bytes)
    → (w : World cache) (l : List Entry) → Requests site text path bytes
    → cache.Contains w.resources l
    → IsCoherent site.disk l
    → let request = parse_request text in
      (w' : World cache) × (l' : List Entry) × (handle_request cache site text w
        ≡ returns (
          request.should_close,
          head_for request path (length bytes) ++ body_for request.method bytes,
          w',
        ))
      × (header_value k_header_content_length
            (file_response k_response_status_ok request.should_close path (length bytes)).headers
          ≡ some (to_string (length bytes)))
      × cache.Contains w'.resources l'
      × IsCoherent site.disk l'
      × (w'.shared_file ≡ w.shared_file)
unfolding handle_request parse_request
handle_request-IsCoherent cache site text path bytes w l r holds coherent =
    let (w', l', run, announced, h', c', kept) =
      handle_static-IsCoherent cache site.disk (parse_request text) path bytes w l [] r.file holds
        coherent in
    (w', l', rw (r.valid, r.located, r.plain) run, announced, h', c', kept)
