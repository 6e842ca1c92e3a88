-- ===== src/Description.antt =====
-- src/description.c: the description of the service, as statements in a model that is made for one
-- request. Where C leaves the order of the arguments of a call open, it is from left to right.
pub mod Parts
pub mod Html
pub mod Answer
pub mod Lost
mod Tests
use redstore.Base.{
  ℕ, ◌+◌, ◌-◌, ◌/◌, Option, none, some, List, [], ◌∷◌, ◌++◌, if◌then◌else◌, take, String, Str,
  codes, str_eq, strn_eq, ℤ,
}
use redstore.Platform.{Platform, Call, Reply}
use redstore.Program.{Program, Action, call}
use redstore.Program.Monad.{◌>>=◌, ◌>>◌, pure}
use redstore.Pages.{decimal_of}

-- `storage_name`, `storage_type` and `public_storage_options`, as the start leaves them.
pub record StoreInfo : Type 0 where
  pub storage_name : Str
  pub storage_type : Str
  pub public_storage_options : Option Str

-- `format_ns_uri`, `sd_ns_uri` and `void_ns_uri`
pub record Namespaces (S : Platform) : Type 0 where
  pub format_ns_uri : S.Uri
  pub sd_ns_uri : S.Uri
  pub void_ns_uri : S.Uri

-- One call after another that gave something; the messages of both are logged.
abbrev pub next_call :
    {W A B : Type 0} → Reply W (Option A) → (A → Call W (Option B)) → Reply W (Option B)
next_call reply next = elim reply.value [
  | none ↦ record { value = none; world = reply.world; messages = reply.messages }
  | some a ↦
      let later = next a reply.world in
      record {
        value = later.value;
        world = later.world;
        messages = reply.messages ++ later.messages;
      }
]

-- The name of a format that a URI of the W3C has, and the URIs behind it.
abbrev pub format_uri : Option (List Str) → Option Str
format_uri none = none
format_uri (some []) = none
format_uri (some (uri ∷ next)) =
    if strn_eq 29 (codes "http://www.w3.org/ns/formats/") uri then some uri else none

abbrev pub other_uris : Option (List Str) → List Str
other_uris none = []
other_uris (some []) = []
other_uris (some (uri ∷ next)) =
    if strn_eq 29 (codes "http://www.w3.org/ns/formats/") uri then next else uri ∷ next

-- The local name for the first of the names that is a version of SPARQL.
abbrev pub language_of : List Str → Option Str
language_of [] = none
language_of (name ∷ next) =
    if str_eq name (codes "sparql10")
    then some (codes "SPARQL10Query")
    else if str_eq name (codes "sparql11-query")
    then some (codes "SPARQL11Query")
    else language_of next

-- The comment, as snprintf cuts it.
abbrev pub comment_max_len : ℕ
comment_max_len = 128

abbrev pub comment : Str → Str → Str
comment package_version storage_type = take (comment_max_len - 1) (
    codes "RedStore "
    ++ (package_version
        ++ (codes " endpoint using the '" ++ (storage_type ++ codes "' storage module."))))

module _ (S : Platform) where
  open S use {World, Node, Uri, Statement, Model, Storage}

  unfoldable pub description_init : Call World (Option (Namespaces S))
  description_init world =
      next_call (S.new_uri (codes "http://www.w3.org/ns/formats/") world) λ format. λ w.
        next_call (S.new_uri (codes "http://www.w3.org/ns/sparql-service-description#") w) λ sd.
          λ v. next_call (S.new_uri (codes "http://rdfs.org/ns/void#") v) λ void. λ u. record {
            value = some (record { format_ns_uri = format; sd_ns_uri = sd; void_ns_uri = void });
            world = u;
            messages = [];
          }

  -- `librdf_model_add`, whose result is not looked at.
  abbrev pub add_statement :
      Model
      → Option Node
      → Action World (Option Node)
      → Action World (Option Node)
      → Action World Unit
  add_statement model subject predicate object = do
    p ← predicate
    o ← object
    failed ← call (S.model_add model subject p o)
    pure tt

  abbrev pub known : Node → Action World (Option Node)
  known node = pure (some node)

  abbrev pub literal : Str → Action World (Option Node)
  literal text = call (S.new_node_from_literal (some text))

  abbrev pub local_name : Uri → String → Action World (Option Node)
  local_name uri name = call (S.new_node_from_uri_local_name uri (codes name))

  -- A statement for each of some texts.
  unfoldable pub add_each : (Str → Action World Unit) → List Str → Action World Unit
  add_each add [] = pure tt
  add_each add (text ∷ next) = add text >> add_each add next

  unfoldable pub new_node_from_integer : ℤ → Action World (Option Node)
  new_node_from_integer i = do
    xsd_integer_uri ← call (S.new_uri (codes "http://www.w3.org/2001/XMLSchema#integer"))
    call (S.new_node_from_typed_literal (decimal_of i) xsd_integer_uri)

  abbrev endpoint_of : Option Uri → Action World (Option Node)
  endpoint_of none = pure none
  endpoint_of (some endpoint_uri) = call (S.new_node_from_uri endpoint_uri)

  abbrev pub endpoint_in : Option Uri → Action World (Option Node)
  endpoint_in none = pure none
  endpoint_in (some request_uri) =
      call (S.new_uri_relative_to_base request_uri (codes "sparql")) >>= endpoint_of

  unfoldable pub sd_get_endpoint_node : Str → Action World (Option Node)
  sd_get_endpoint_node request_url_str = call (S.new_uri request_url_str) >>= endpoint_in
