-- ===== src/Description/Answer.antt =====
-- The handler of the description of the service (src/description.c).
use redstore.Base.{
  Bool, true, Option, none, some, if◌then◌else◌, null_pointer, Result, ok, fault, Str, codes,
  str_eq,
}
use redstore.Response.{Response}
use redstore.Format.{Negotiated, negotiate_format}
use redstore.Platform.{Platform, Stream}
use redstore.Program.{Action, call, lift}
use redstore.Program.Monad.{◌>>=◌, ◌>>◌, pure, the_request}
use redstore.Data.{request_url}
use redstore.Formatters.{first_name, format_graph_stream}
use redstore.Description.{StoreInfo, Namespaces}
use redstore.Description.Parts.{describe_service}
use redstore.Description.Html.{handle_html_description}

-- `desc == NULL || strcmp("html", desc->names[0]) == 0`
abbrev is_html_name : Option Str → Result Bool
is_html_name none = fault null_pointer
is_html_name (some name) = ok (str_eq (codes "html") name)

abbrev pub asks_html : Negotiated → Result Bool
asks_html none = ok true
asks_html (some (desc, mime_type)) = is_html_name (first_name desc)

module _ (S : Platform) (ns : Namespaces S) (info : StoreInfo) where
  open S use {World, Node, Statement, Model, Storage}

  abbrev describe_node : Model → Str → Option Node → Action World (Option Model)
  describe_node sd_model url none = pure none
  describe_node sd_model url (some service_node) =
      describe_service S ns sd_model info url service_node >> pure (some sd_model)

  abbrev describe_model : Str → Option Model → Action World (Option Model)
  describe_model url none = pure none
  describe_model url (some sd_model) = call S.new_node >>= describe_node sd_model url

  unfoldable pub create_service_description : Storage → Str → Action World (Option Model)
  create_service_description sd_storage url = call (S.new_model sd_storage) >>= describe_model url

  -- Where a step fails there is no response, and the next handler is asked.
  abbrev send_description : Option (Stream Statement) → Action World (Option Response)
  send_description none = pure none
  send_description (some sd_stream) = format_graph_stream S sd_stream

  abbrev stream_description : Option Model → Action World (Option Response)
  stream_description none = pure none
  stream_description (some sd_model) = call (S.model_as_stream sd_model) >>= send_description

  abbrev describe_in : Str → Option Storage → Action World (Option Response)
  describe_in url none = pure none
  describe_in url (some sd_storage) =
      create_service_description sd_storage url >>= stream_description

  abbrev pub rdf_description : Action World (Option Response)
  rdf_description = do
    url ← request_url
    sd_storage ← call S.new_storage
    describe_in url sd_storage

  unfoldable pub handle_description_get : Action World (Option Response)
  handle_description_get = do
    request ← the_request
    desc ← lift (negotiate_format S.double request S.serializers (some (codes "text/html")))
    html ← lift (asks_html desc)
    if html then handle_html_description S info else rdf_description
