-- ===== src/Data/Sent/Tests.antt =====
-- GET of a graph in the store of quads.
use redstore.Base.{
  ◌≡◌, refl, false, some, [], ◌∷◌, ◌++◌, arith, ok, codes, str_eq, strn_eq, tolower,
}
use redstore.Headers.{headers_get, headers_exists}
use redstore.Format.{negotiate_format, negotiate_string, get_format_by_name}
use redstore.Request.{Request, request_new}
use redstore.Request.Setters.{get_url}
use redstore.Response.Send.{write}
use redstore.Platform.Example.{Quads, quads, quads_store, quads_exist}
use redstore.Program.{Program, log_all}
use redstore.Program.Calls.{stream_of}
use redstore.Data.{get_graph_node}
use redstore.Data.Contents.{NamesGraph}
use redstore.Data.Handlers.{handle_data_get}
use redstore.Data.Sent.{Serialises, sent_response, head, handle_data_get-sends}
use redstore.Main.Options.{initial_settings}
use redstore.Main.Start.{initial_program}

abbrev asking : Request
asking = record (request_new (record { input = []; eof = false; output = [] })) {
  version = some (codes "1.0");
  server = some (some (codes "redstore/0"));
  url = some (codes "http://h/data/");
  arguments =
      record { key = codes "graph"; value = some (codes "g") }
      ∷ record { key = codes "format"; value = some (codes "text") }
      ∷ [];
}

abbrev full : Program Quads
full = initial_program ((codes "g", codes "a") ∷ []) initial_settings

asking-NamesGraph : NamesGraph quads quads_store asking asking full (codes "g") (codes "text")
unfolding headers_get headers_exists get_graph_node get_url log_all negotiate_string tolower
asking-NamesGraph = record {
  not_default = refl;
  some_name = refl;
  node_found = refl;
  speaks = refl;
  printable = λ e. cc e;
}

abbrev asking-Serialises :
    Serialises quads asking full
      (stream_of (codes "a" ∷ []))
      (codes "text/plain")
      (codes "graph")
      (codes "today")
      (codes "redstore/0")
unfolding headers_get negotiate_format get_format_by_name str_eq strn_eq tolower
asking-Serialises = record {
  desc = _;
  serialiser = tt;
  negotiated = refl;
  some_type = omega arith;
  serialiser_made = refl;
  serialised = refl;
  takes_headers = refl;
  dated = refl;
  some_date = omega arith;
  signed = refl;
  some_signature = omega arith;
}

handle_data_get-sends_example :
    handle_data_get quads asking full
    ≡ ok (
      some (
          sent_response quads asking full _
            (codes "text/plain")
            (codes "graph")
            (codes "today")
            (codes "redstore/0")
            asking-Serialises),
      write asking (
          head quads asking full _
            (codes "text/plain")
            (codes "graph")
            (codes "today")
            (codes "redstore/0")
            asking-Serialises
          ++ codes "graph"),
      full,
    )
unfolding quads_exist str_eq
handle_data_get-sends_example =
    handle_data_get-sends quads quads_store asking asking full (codes "g") (codes "text")
      asking-NamesGraph (stream_of (codes "a" ∷ [])) (codes "text/plain") (codes "graph")
      (codes "today") (codes "redstore/0") refl refl asking-Serialises
