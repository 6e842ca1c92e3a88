-- ===== src/Server/Handle/Tests.antt =====
-- The theorems on a connection of src/redhttp/server.c for a concrete request.
use redstore.Base.{
  ◌≡◌, refl, inr, true, false, none, some, [], ◌∷◌, ◌++◌, arith, ok, Str, codes, cstr, str_eq,
  str_ne, strn_eq, strchr, isspace, isalpha, toupper, pos,
}
use redstore.Headers.Fields.{Fields}
use redstore.Url.{url_unescape}
use redstore.Request.Read.Whole.{IsPlainRequest, request_text, received, request_read-request_text}
use redstore.Response.Send.General.{general_fields}
use redstore.Response.Send.Wire.{head_text}
use redstore.Server.{Server, server_new}
use redstore.Server.Handle.{handle_request}
use redstore.Server.Handle.Exchange.{connection_of, handle_request-exchange}
use redstore.Request.Read.{request_read}
use redstore.Request.{Request, request_new}
use redstore.Response.{Response}
use redstore.Server.{Handler, no_data, match_route, method_matches, path_matches}

abbrev text_reply : Response
text_reply = record {
  headers = record { key = codes "Content-Type"; value = some (codes "text/plain") } ∷ [];
  status_code = 200;
  status_message = some (codes "OK");
  content_buffer = some (codes "hello");
  content_length = pos 5;
  content_free_callback = false;
  user_data = 0;
  headers_sent = false;
}

abbrev hello_route : Handler Unit
hello_route = record {
  method = some (codes "GET");
  path = some (codes "/data/*");
  func = λ request user_data world. ok (some text_reply, request, world);
  user_data = no_data;
}

-- A route for every request, whose handler declines.
abbrev passing_route : Handler Unit
passing_route = record {
  method = none;
  path = none;
  func = λ request user_data world. ok (none, request, world);
  user_data = no_data;
}

abbrev hello_server : Server Unit
hello_server = record server_new {
  signature = some (codes "redstore");
  handlers = passing_route ∷ hello_route ∷ [];
}

abbrev host_fields : Fields
host_fields = (codes "Host", codes "h") ∷ []

get-IsPlainRequest : IsPlainRequest (codes "get") (codes "/data/x") (codes "1.0") host_fields
unfolding isalpha strn_eq strchr isspace toupper
get-IsPlainRequest = record {
  method_set = λ e. cc e;
  letters = (refl, (refl, (refl, tt)));
  no_post = refl;
  path_set = λ e. cc e;
  path_graphic = ground arith;
  no_query = refl;
  version_graphic = ground arith;
  fits = omega arith;
  headers_expected = refl;
  are_fields = ((((λ e. cc e, omega arith), refl), ((omega arith, omega arith), omega arith)), tt);
}

handle_request-exchange_example :
    handle_request
      (λ n. true)
      (some (codes "today"))
      hello_server
      (connection_of
        (request_text (codes "get") (codes "/data/x") (codes "1.0") host_fields [])
        (codes "10.0.0.2", codes "4000")
        (codes "10.0.0.1", codes "8080"))
      tt
    ≡ ok (
      some (
          head_text 200 (codes "OK") (
            (codes "Content-Type", codes "text/plain")
            ∷ general_fields 5 (codes "today") (codes "redstore"))
          ++ codes "hello"),
      tt,
    )
unfolding str_eq url_unescape cstr toupper match_route method_matches path_matches
handle_request-exchange_example =
    handle_request-exchange (λ n. true) hello_server tt tt tt (codes "10.0.0.2", codes "4000")
      (codes "10.0.0.1", codes "8080") (codes "today") (codes "redstore") (codes "get")
      (codes "/data/x") (codes "1.0") host_fields [] (passing_route ∷ []) [] hello_route _
      text_reply ((codes "Content-Type", codes "text/plain") ∷ []) (codes "OK") (codes "hello") refl
      refl (omega arith) (omega arith) (λ n _. refl) get-IsPlainRequest
      (str_ne (codes "/data/x") (codes "*") refl) refl
      (
        (λ e. cc e),
        inr (
          _,
          tt,
          (_, refl, refl),
          record { method_read = refl; path_read = refl; no_glob = refl },
          (refl, refl),
        ),
      )
      (λ e. cc e) (refl, inr (codes "/data/", codes "x", refl, refl)) (λ request' _. refl)
      (record {
        header_fields = refl;
        message_set = refl;
        has_content = (refl, refl, λ e. cc e);
        unsent = refl;
      })

abbrev asked_of : Str → Request
asked_of input = request_new (record { input = input; eof = false; output = [] })

request_read-request_text_example :
    request_read
      (λ n. true)
      (asked_of (request_text (codes "get") (codes "/data/x") (codes "1.0") host_fields []))
    ≡ ok (
      received
          (asked_of (request_text (codes "get") (codes "/data/x") (codes "1.0") host_fields []))
          (codes "get")
          (codes "/data/x")
          (codes "1.0")
          host_fields
          [],
      0,
    )
request_read-request_text_example =
    request_read-request_text (λ n. true)
      (asked_of (request_text (codes "get") (codes "/data/x") (codes "1.0") host_fields []))
      (codes "get") (codes "/data/x") (codes "1.0") host_fields [] (λ n _. refl) get-IsPlainRequest
      refl
