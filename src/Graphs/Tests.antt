-- ===== src/Graphs/Tests.antt =====
-- The theorem on the list of src/graphs.c for a concrete storage.
use redstore.Base.{◌≡◌, true, false, none, [], ◌∷◌, ok, codes}
use redstore.Request.{Request, request_new}
use redstore.Response.Send.{write}
use redstore.Platform.Example.{Quads, quads}
use redstore.Program.{Program}
use redstore.Program.Calls.{stream_of}
use redstore.Graphs.{text_items}
use redstore.Graphs.Listing.{text_items-listing}

abbrev client : Request
client = request_new (record { input = []; eof = false; output = codes "head" })

abbrev idle : Program Quads
idle = record {
  world = [];
  error_buffer = none;
  request_count = 0;
  query_count = 0;
  import_count = 0;
  base_id = 0;
  quiet = false;
  verbose = false;
  running = true;
  exit_code = 0;
}

text_items-listing_example :
    text_items quads (stream_of (codes "a" ∷ codes "b" ∷ [])) client idle
    ≡ ok (tt, write client (codes "ua\nub\n"), idle)
text_items-listing_example = text_items-listing quads (codes "a" ∷ codes "b" ∷ []) client idle
