-- ===== src/Update/Tests.antt =====
-- The theorems on the failures of src/update.c for storages that warn or fail.
use redstore.Base.{
  ◌≡◌, refl, true, false, none, some, List, [], ◌∷◌, null_pointer, ok, fault, codes, isspace,
  tolower, trim_right, decimal, str_eq, pos, negsuc,
}
use redstore.Headers.{headers_get}
use redstore.Request.{Request, request_new}
use redstore.Format.{negotiate_string, is_html_format}
use redstore.Platform.{Platform, LogMessage, log_warn, log_error}
use redstore.Platform.Example.{Quads, quads}
use redstore.Program.{Program, has_directive}
use redstore.Program.Calls.{stream_of}
use redstore.Pages.{message_format}
use redstore.Pages.Message.{message_response}
use redstore.Update.{load_stream_into_graph}
use redstore.Update.Failures.{load_stream_into_graph-logged, load_stream_into_graph-warned}
use redstore.Negotiate.{
  negotiate_add, trim_start, negotiate_count, negotiate_sort, sort_loop, sort_pass,
  negotiate_choose, choose_server, choose_client, compare_types,
}
use redstore.Negotiate.Double.{negotiate_parse, parse_loop}

abbrev client : Request
client = request_new (record { input = []; eof = false; output = [] })

abbrev idle : Program Quads
idle = record {
  world = (codes "g", codes "a") ∷ [];
  error_buffer = none;
  request_count = 0;
  query_count = 0;
  import_count = 0;
  base_id = 0;
  quiet = false;
  verbose = false;
  running = true;
  exit_code = 0;
}

abbrev warning : LogMessage
warning = record { level = log_warn; message = some (codes "odd"); locator = none }

abbrev error : LogMessage
error = record {
  level = log_error;
  message = some (codes "bad");
  locator = some (record { byte = pos 0; line = pos 7; column = negsuc 0 });
}

-- Storages that take statements with messages.
abbrev logging : List LogMessage → Platform
logging messages = record quads {
  context_add_statements = λ n xs w. record { value = false; world = []; messages = messages };
}

client-speaks : message_format quads client ≡ ok (some (codes "text/plain"))
unfolding negotiate_string headers_get
client-speaks = refl

abbrev html_client : Request
html_client = record client {
  headers = record { key = codes "Accept"; value = some (codes "text/html") } ∷ [];
}

html-speaks : message_format (logging (warning ∷ [])) html_client ≡ ok (some (codes "text/html"))
unfolding negotiate_string headers_get tolower negotiate_parse parse_loop negotiate_add trim_start
    trim_right negotiate_sort negotiate_count sort_loop sort_pass isspace negotiate_choose
    choose_server choose_client compare_types str_eq
html-speaks = refl

load_stream_into_graph-logged_example :
    load_stream_into_graph
      (logging (warning ∷ error ∷ []))
      (stream_of [])
      (some (codes "g"))
      client
      idle
    ≡ ok (
      some (
          message_response
            (logging (warning ∷ error ∷ []))
            false
            500
            (codes "Error while adding triples to: ug")
            (some (codes "bad, line 7\n"))),
      client,
      record idle { world = []; error_buffer = some (codes "bad, line 7\n") },
    )
unfolding is_html_format str_eq has_directive decimal
load_stream_into_graph-logged_example =
    load_stream_into_graph-logged (logging (warning ∷ error ∷ [])) client idle (codes "g")
      (stream_of []) (codes "text/plain") client-speaks warning (error ∷ []) [] _ _ refl
      ((λ e. cc e, refl), ((λ e. cc e, refl), tt)) refl

load_stream_into_graph-warned_example :
    load_stream_into_graph
      (logging (warning ∷ []))
      (stream_of [])
      (some (codes "g"))
      html_client
      idle
    ≡ fault null_pointer
unfolding is_html_format str_eq has_directive decimal
load_stream_into_graph-warned_example =
    load_stream_into_graph-warned (logging (warning ∷ [])) html_client idle (codes "g")
      (stream_of []) (codes "text/html") html-speaks warning [] [] refl ((λ e. cc e, refl), tt)
      (refl, tt) refl refl
