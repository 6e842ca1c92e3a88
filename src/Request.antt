-- ===== src/Request.antt =====
-- The state of src/redhttp/request.c and its smaller operations. Strings that malloc returns are
-- taken to be there.
pub mod Arguments
pub mod Setters
mod Tests
pub mod StatusLine
pub mod Read
use redstore.Base.{Bool, ℕ, Option, none, some, List, [], null_pointer, Result, ok, fault, Str}
use redstore.Headers.{
  Header, Headers, headers_get, headers_count, headers_exists, headers_get_index,
}
use redstore.Socket.{Socket}

-- A pointer that `free` may have left behind.
pub data Pointer : Type 0 where
  null : Pointer
  live : Str → Pointer
  freed : Pointer

-- struct redhttp_request_s. `server` is what the code reads through that pointer: the signature.
-- The buffers `remote_addr` to `server_port` are filled by getnameinfo.
pub record Request : Type 0 where
  pub headers : Headers
  pub arguments : Headers
  pub server : Option (Option Str)
  pub socket : Socket
  pub remote_addr : Str
  pub remote_port : Str
  pub server_addr : Str
  pub server_port : Str
  pub host : Option Str
  pub method : Option Str
  pub path_and_query : Option Str
  pub version : Option Str
  pub url : Option Str
  pub path : Option Str
  pub path_glob : Pointer
  pub query_string : Option Str
  pub content_buffer : Option (List ℕ)
  pub content_length : ℕ

-- `calloc` leaves every field null or empty; the socket is the caller's.
abbrev pub request_new : Socket → Request
request_new socket = record {
  headers = [];
  arguments = [];
  server = none;
  socket = socket;
  remote_addr = [];
  remote_port = [];
  server_addr = [];
  server_port = [];
  host = none;
  method = none;
  path_and_query = none;
  version = none;
  url = none;
  path = none;
  path_glob = null;
  query_string = none;
  content_buffer = none;
  content_length = 0;
}

-- A use of a string that may be NULL.
abbrev pub not_null {ℓ} : {A : Type ℓ} → Option A → Result A
not_null none = fault null_pointer
not_null (some s) = ok s

-- The accessors of the two lists.
abbrev count_headers : Request → ℕ
count_headers request = headers_count request.headers

abbrev pub get_header : Request → Str → Option Str
get_header request key = headers_get request.headers key

abbrev count_arguments : Request → ℕ
count_arguments request = headers_count request.arguments

abbrev pub get_argument : Request → Str → Option Str
get_argument request key = headers_get request.arguments key

abbrev pub argument_exists : Request → Str → Bool
argument_exists request key = headers_exists request.arguments key

abbrev get_argument_index : Request → ℕ → Option Header
get_argument_index request index = headers_get_index request.arguments index
