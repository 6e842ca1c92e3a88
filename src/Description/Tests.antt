-- ===== src/Description/Tests.antt =====
-- The description of the service for the store of quads.
use redstore.Base.{◌≡◌, refl, false, none, some, [], ◌∷◌, ok, codes, str_eq, tolower}
use redstore.Headers.{headers_get}
use redstore.Format.{is_html_format, negotiate_format, negotiate_string, get_format_by_name}
use redstore.Request.{Request, request_new}
use redstore.Platform.{Platform}
use redstore.Platform.Example.{Quads, quads, answering}
use redstore.Program.{Program}
use redstore.Pages.Message.{message_response}
use redstore.Server.Dispatch.{dispatch_request}
use redstore.Description.{StoreInfo, Namespaces, description_init}
use redstore.Description.Answer.{handle_description_get}
use redstore.Main.Options.{initial_settings}
use redstore.Main.Start.{initial_program}
use redstore.Main.Routes.{table, begun}
use redstore.Main.Lost.{described, dispatch_request-no_storage}

-- The libraries of the store of quads, without storage for a description.
abbrev full : Platform
full = record quads { new_storage = answering none }

abbrev names : Namespaces full
names = record {
  format_ns_uri = codes "http://www.w3.org/ns/formats/";
  sd_ns_uri = codes "http://www.w3.org/ns/sparql-service-description#";
  void_ns_uri = codes "http://rdfs.org/ns/void#";
}

abbrev info : StoreInfo
info = record {
  storage_name = codes "redstore";
  storage_type = codes "hashes";
  public_storage_options = none;
}

abbrev asking : Request
asking = record (request_new (record { input = []; eof = false; output = [] })) {
  url = some (codes "http://h/description");
  arguments = record { key = codes "format"; value = some (codes "text") } ∷ [];
}

abbrev started : Program Quads
started = initial_program [] initial_settings

description_init_test :
    description_init full [] ≡ record { value = some names; world = []; messages = [] }
unfolding description_init
description_init_test = refl

dispatch_request-no_storage_example :
    dispatch_request
      (table full (handle_description_get full names info))
      (described asking)
      started
    ≡ ok (
      message_response full false 404 (codes "Unsupported path.") none,
      described asking,
      begun full (handle_description_get full names info) started,
    )
unfolding headers_get negotiate_format negotiate_string is_html_format get_format_by_name str_eq
    tolower
dispatch_request-no_storage_example =
    dispatch_request-no_storage full names info asking started (codes "text") refl (record {
      desc = _;
      url = codes "http://h/description";
      negotiated = refl;
      not_html = refl;
      url_known = refl;
      no_storage = refl;
    })
