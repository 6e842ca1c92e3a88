-- ===== src/Description/Parts.antt =====
-- The statements of the description of the service (src/description.c).
use redstore.Base.{
  Bool, true, false, Option, none, some, List, [], ◌∷◌, if◌then◌else◌, null_pointer, String, fault,
  Str, codes, str_eq, ℤ, pos, negsuc,
}
use redstore.Negotiate.{MediaType}
use redstore.Format.{Description}
use redstore.Platform.{Platform}
use redstore.Program.{Action, call, lift}
use redstore.Program.Monad.{◌>>=◌, ◌>>◌, pure}
use redstore.Formatters.{first_name}
use redstore.Description.{
  StoreInfo, Namespaces, format_uri, other_uris, language_of, comment, add_statement, known,
  literal, local_name, add_each, new_node_from_integer, sd_get_endpoint_node,
}

abbrev mime_names : List MediaType → List Str
mime_names [] = []
mime_names (m ∷ next) = m.type ∷ mime_names next

module _ (S : Platform) (ns : Namespaces S) (sd_model : S.Model) where
  open S use {World, Node, Uri}
  open ns use {format_ns_uri, sd_ns_uri, void_ns_uri}

  abbrev format_node_of : Option Str → Action World (Option Node)
  format_node_of none = call S.new_node
  format_node_of (some uri_string) = call (S.new_node_from_uri_string uri_string)

  abbrev add_uri : Node → Node → Str → Action World Unit
  add_uri node property uri_string =
      add_statement S sd_model (some node) (known S property)
        (call (S.new_node_from_uri_string uri_string))

  -- The first URI says what defines the format, the others what to see also.
  abbrev add_uris : Node → List Str → Action World Unit
  add_uris node [] = pure tt
  add_uris node (uri_string ∷ next) =
      add_uri node S.s_is_defined_by uri_string >> add_each S (add_uri node S.s_see_also) next

  abbrev add_label : Node → Node → Option Str → Action World Unit
  add_label node property none = pure tt
  add_label node property (some text) =
      add_statement S sd_model (some node) (known S property) (literal S text)

  -- What is said of one format.
  unfoldable pub add_format : Node → String → Node → Description → Action World Unit
  unfolding add_each
  add_format service_node type format_node desc = do
    add_statement S sd_model (some format_node) (known S S.ms_type)
        (local_name S format_ns_uri "Format")
    add_statement S sd_model (some service_node) (local_name S sd_ns_uri type) (known S format_node)
    add_each S
        (λ name. add_statement S sd_model (some format_node) (known S S.s_label) (literal S name))
        desc.names
    add_label format_node S.s_comment desc.label
    add_each S
        (λ mime.
          add_statement S sd_model (some format_node) (local_name S format_ns_uri "media_type")
            (literal S mime))
        (mime_names desc.mime_types)
    add_uris format_node (other_uris desc.uri_strings)

  -- What follows for a node, or the result -1 (`false`).
  abbrev with_format_node : Option Node → (Node → Action World Bool) → Action World Bool
  with_format_node none next = pure false
  with_format_node (some format_node) next = next format_node

  -- The format "guess" is left out. A description without a name has a null pointer for it.
  abbrev describe : Node → String → Option Str → Description → Action World Bool → Action World Bool
  describe service_node type none desc next = lift (fault null_pointer)
  describe service_node type (some name) desc next =
      if str_eq name (codes "guess")
      then next
      else format_node_of (format_uri desc.uri_strings) >>= λ made.
          with_format_node made λ format_node. add_format service_node type format_node desc >> next

  unfoldable pub sd_add_format_descriptions : Node → List Description → String → Action World Bool
  unfolding add_format
  sd_add_format_descriptions service_node [] type = pure true
  sd_add_format_descriptions service_node (desc ∷ next) type =
      describe service_node type (first_name desc) desc
        (sd_add_format_descriptions service_node next type)

  abbrev add_see_also : Node → Option (List Str) → Action World Unit
  add_see_also node none = pure tt
  add_see_also node (some uri_strings) = add_each S (add_uri node S.s_see_also) uri_strings

  abbrev add_language : Node → Description → Option Node → Action World Unit
  add_language service_node desc none = pure tt
  add_language service_node desc (some lang_node) = do
    add_statement S sd_model (some service_node) (local_name S sd_ns_uri "supportedLanguage")
        (known S lang_node)
    add_statement S sd_model (some lang_node) (known S S.s_comment)
        (call (S.new_node_from_literal desc.label))
    add_see_also lang_node desc.uri_strings

  abbrev lang_node_of : Option Str → Action World (Option Node)
  lang_node_of none = pure none
  lang_node_of (some name) = call (S.new_node_from_uri_local_name sd_ns_uri name)

  unfoldable pub sd_add_query_languages : Node → List Description → Action World Unit
  unfolding add_each
  sd_add_query_languages service_node [] = pure tt
  sd_add_query_languages service_node (desc ∷ next) = do
    lang_node ← lang_node_of (language_of desc.names)
    add_language service_node desc lang_node
    sd_add_query_languages service_node next

  -- `if (triple_count >= 0)`
  abbrev add_triples : Node → ℤ → Action World Unit
  add_triples graph_node (negsuc n) = pure tt
  add_triples graph_node (pos n) =
      add_statement S sd_model (some graph_node) (local_name S void_ns_uri "triples")
        (new_node_from_integer S (pos n))

  abbrev describe_graph : Node → ℤ → Option Node → Action World Bool
  describe_graph dataset_node triple_count none = pure false
  describe_graph dataset_node triple_count (some default_graph_node) = do
    add_statement S sd_model (some dataset_node) (local_name S sd_ns_uri "defaultGraph")
        (known S default_graph_node)
    add_statement S sd_model (some default_graph_node) (known S S.ms_type)
        (local_name S sd_ns_uri "Graph")
    add_triples default_graph_node triple_count
    pure true

  abbrev describe_dataset : Node → ℤ → Option Node → Action World Bool
  describe_dataset service_node triple_count none = pure false
  describe_dataset service_node triple_count (some dataset_node) = do
    add_statement S sd_model (some service_node)
        (local_name S sd_ns_uri "defaultDatasetDescription") (known S dataset_node)
    add_statement S sd_model (some dataset_node) (known S S.ms_type)
        (local_name S sd_ns_uri "Dataset")
    default_graph_node ← call S.new_node
    describe_graph dataset_node triple_count default_graph_node

  -- `true` is 0.
  unfoldable pub sd_add_dataset_description : Node → Action World Bool
  sd_add_dataset_description service_node = do
    triple_count ← call S.storage_size
    dataset_node ← call S.new_node
    describe_dataset service_node triple_count dataset_node

  -- All of the description. The results of the parts are not looked at.
  unfoldable pub describe_service : StoreInfo → Str → Node → Action World Unit
  unfolding sd_add_format_descriptions sd_add_query_languages sd_add_dataset_description
  describe_service info request_url service_node = do
    add_statement S sd_model (some service_node) (known S S.ms_type)
        (local_name S sd_ns_uri "Service")
    inputs ← sd_add_format_descriptions service_node S.parsers "inputFormat"
    graphs ← sd_add_format_descriptions service_node S.serializers "resultFormat"
    results ← sd_add_format_descriptions service_node S.results_formats "resultFormat"
    sd_add_query_languages service_node S.query_languages
    dataset ← sd_add_dataset_description service_node
    add_statement S sd_model (some service_node) (known S S.s_label) (literal S info.storage_name)
    add_statement S sd_model (some service_node) (known S S.s_comment)
        (literal S (comment S.package_version info.storage_type))
    add_statement S sd_model (some service_node) (local_name S sd_ns_uri "endpoint")
        (sd_get_endpoint_node S request_url)
    add_statement S sd_model (some service_node) (local_name S sd_ns_uri "feature")
        (local_name S sd_ns_uri "UnionDefaultGraph")
