-- ===== src/Request/Setters.antt =====
-- The setters and getters of src/redhttp/request.c that do more than read or write one field.
use redstore.Base.{
  ℕ, ◌+◌, Option, none, some, [], ◌∷◌, ◌++◌, map, if◌then◌else◌, take, drop, freed_pointer, Result,
  ok, fault, ◌>>=◌, Str, codes, cstr, str_eq, strchr, toupper,
}
use redstore.Headers.{headers_get}
use redstore.Url.{url_unescape}
use redstore.Request.{Request, Pointer, null, live, freed}
use redstore.Request.Arguments.{parse_arguments}

unfoldable pub set_method : Request → Option Str → Request
set_method request none = record request { method = none }
set_method request (some method) = record request { method = some (map toupper method) }

unfoldable pub set_version : Request → Option Str → Request
set_version request version = record request { version = version }

unfoldable set_query_string : Request → Option Str → Request
set_query_string request query_string = record request { query_string = query_string }

abbrev set_path : Request → Option Str → Request
set_path request path = record request { path = path }

-- The store of a glob that is not empty; an empty one leaves the pointer as it is.
abbrev pub stored_glob : Pointer → Str → Pointer
stored_glob old [] = old
stored_glob old (c ∷ s) = live (c ∷ s)

-- What `free` leaves of the old glob.
abbrev pub released : Pointer → Result Pointer
released null = ok null
released (live s) = ok freed
released freed = fault freed_pointer

unfoldable pub set_path_glob : Request → Str → Result Request
set_path_glob request path_glob = do
  old ← released request.path_glob
  ok (record request { path_glob = stored_glob old path_glob })

-- The part of the text before the question mark, and the query.
abbrev path_part : Str → Option ℕ → Str
path_part s none = s
path_part s (some at) = take at s

abbrev query_part : Str → Option ℕ → Option Str
query_part s none = none
query_part s (some at) = some (drop (at + 1) s)

-- The query string and its arguments, if there is a question mark.
abbrev with_query : Request → Option Str → Result Request
with_query request none = ok request
with_query request (some query) = do
  arguments ← parse_arguments request.arguments (some query)
  ok (record request { query_string = some query; arguments = arguments })

unfoldable pub set_path_and_query : Request → Option Str → Result Request
set_path_and_query request none = ok (record request { path_and_query = none })
set_path_and_query request (some s) = do
  request' ← with_query (record request { path_and_query = some s }) (query_part s (strchr b'?' s))
  ok (record request' { path = some (cstr (url_unescape (path_part s (strchr b'?' s)))) })

-- The host that is made of the server's address: without the port if that is 80.
abbrev default_host : Str → Str → Str
default_host server_addr server_port =
    if str_eq server_port (codes "80") then server_addr else server_addr ++ b':' ∷ server_port

abbrev host_of : Option Str → Request → Str
host_of (some host_header) request = host_header
host_of none request = default_host request.server_addr request.server_port

-- The host is found once and kept.
abbrev kept_host : Option Str → Request → Request × Str
kept_host (some host) request = (request, host)
kept_host none request =
    let host = host_of (headers_get request.headers (codes "Host")) request in
    (record request { host = some host }, host)

unfoldable pub get_host : Request → Request × Str
get_host request = kept_host request.host request

-- "http://" with the host and the path; NULL if there is no path.
abbrev full_url : Str → Option Str → Option Str
full_url host none = none
full_url host (some path_and_query) = some (codes "http://" ++ (host ++ path_and_query))

abbrev kept_url : Option Str → Request → Request × Option Str
kept_url (some url) request = (request, some url)
kept_url none request =
    let (request', host) = get_host request in
    let url = full_url host request'.path_and_query in (record request' { url = url }, url)

unfoldable pub get_url : Request → Request × Option Str
unfolding get_host
get_url request = kept_url request.url request

-- `redhttp_request_new_with_args`
unfoldable new_with_args : Request → Option Str → Option Str → Option Str → Result Request
unfolding set_method set_path_and_query set_version
new_with_args request method path_and_query version = do
  request' ← set_path_and_query (set_method request method) path_and_query
  ok (set_version request' version)

-- `redhttp_request_free`: of the fields only the glob may have been freed before.
unfoldable pub request_free : Request → Result (Unit {0})
request_free request = released request.path_glob >>= λ gone. ok tt
