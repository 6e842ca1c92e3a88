-- ===== src/Pages/Tests.antt =====
-- The theorems on the messages of src/pages.c for concrete requests.
use redstore.Base.{
  ◌≡◌, refl, true, false, some, List, [], ◌∷◌, null_pointer, fault, Str, codes, str_eq, isspace,
  tolower, trim_right,
}
use redstore.Headers.{headers_get}
use redstore.Negotiate.{
  MediaType, negotiate_add, trim_start, negotiate_count, negotiate_sort, sort_loop, sort_pass,
  negotiate_choose, choose_server, choose_client, compare_types,
}
use redstore.Negotiate.Double.{negotiate_parse, parse_loop}
use redstore.Request.{Request, request_new}
use redstore.Platform.{log_info}
use redstore.Platform.Example.{Quads, quads}
use redstore.Program.{Program}
use redstore.Pages.{page_new_with_message}
use redstore.Pages.Faults.{AcceptsNone, page_new_with_message-null}

abbrev accepting : Str → Request
accepting types = record (request_new (record { input = []; eof = false; output = [] })) {
  headers = record { key = codes "Accept"; value = some types } ∷ [];
}

-- A program whose last request logged an error.
abbrev troubled : Program Quads
troubled = record {
  world = [];
  error_buffer = some (codes "oops");
  request_count = 1;
  query_count = 0;
  import_count = 0;
  base_id = 0;
  quiet = false;
  verbose = false;
  running = true;
  exit_code = 0;
}

abbrev png : MediaType
png = record { type = codes "image/png"; q = 10 }

abbrev own_types : List MediaType
own_types =
    record { type = codes "text/plain"; q = 10 }
    ∷ record { type = codes "text/html"; q = 10 }
    ∷ record { type = codes "application/xhtml+xml"; q = 10 }
    ∷ []

png-AcceptsNone :
    AcceptsNone quads (accepting (codes "image/png")) (codes "image/png") own_types (png ∷ [])
unfolding headers_get tolower negotiate_parse parse_loop negotiate_add trim_start trim_right
    negotiate_sort negotiate_count sort_loop sort_pass isspace negotiate_choose choose_server
    choose_client compare_types str_eq
png-AcceptsNone = record {
  no_format = refl;
  accepts = refl;
  chooses = refl;
  parsed = refl;
  own_parsed = refl;
  none_chosen = refl;
}

page_new_with_message-null_example :
    page_new_with_message quads log_info 200
      (codes "Done.")
      (accepting (codes "image/png"))
      troubled
    ≡ fault null_pointer
page_new_with_message-null_example =
    page_new_with_message-null quads (accepting (codes "image/png")) (codes "image/png") own_types
      (png ∷ []) log_info 200 (codes "Done.") troubled png-AcceptsNone
