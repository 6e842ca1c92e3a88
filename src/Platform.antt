-- ===== src/Platform.antt =====
-- What RedStore calls and does not contain: the libraries librdf, raptor and rasqal, and what the
-- build and the system give. All of it is a parameter of the modules that use it.
pub mod Example
use redstore.Base.{ℕ, Bool, Option, List, Str, ℤ}
use redstore.Negotiate.Double.{Double}
use redstore.Format.{Description}

-- librdf_log_level
pub data LogLevel : Type 0 where
  log_none log_debug log_info log_warn log_error log_fatal : LogLevel

pub record Locator : Type 0 where
  pub byte : ℤ
  pub line : ℤ
  pub column : ℤ

-- What librdf gives to the log handler.
pub record LogMessage : Type 0 where
  pub level : LogLevel
  pub message : Option Str
  pub locator : Option Locator

-- A call of the libraries: its result, the state it leaves, and the messages that it logs.
pub record Reply (W A : Type 0) : Type 0 where
  pub value : A
  pub world : W
  pub messages : List LogMessage

abbrev pub Call : Type 0 → Type 0 → Type 0
Call W A = W → Reply W A

-- A stream or an iterator: its objects, `none` for a NULL, and what is logged when it moves on from
-- each. It is finite, and what it gives is settled when it is made.
abbrev pub Stream : Type 0 → Type 0
Stream A = List (Option A × List LogMessage)

pub record Platform : Type 1 where
  pub double : Double
  -- the state of librdf: its storage, and whatever decides that a call fails
  pub World : Type 0
  pub Uri : Type 0
  pub Node : Type 0
  pub Statement : Type 0
  pub Parser : Type 0
  pub Serializer : Type 0
  pub Query : Type 0
  pub Results : Type 0
  pub Formatter : Type 0
  -- `none` is NULL
  pub new_uri : Str → Call World (Option Uri)
  pub new_uri_relative_to_base : Uri → Str → Call World (Option Uri)
  pub new_uri_from_uri : Uri → Call World (Option Uri)
  pub uri_as_string : Uri → Str
  pub new_node_from_uri : Uri → Call World (Option Node)
  pub new_node_from_uri_string : Str → Call World (Option Node)
  pub node_get_uri : Node → Option Uri
  -- `true` is a result that is not 0, which is an error for all but the first
  pub contains_context : Node → Call World Bool
  pub context_add_statements : Option Node → Stream Statement → Call World Bool
  pub context_remove_statements : Node → Call World Bool
  pub context_remove_statement : Option Node → Statement → Call World Bool
  pub remove_statement : Statement → Call World Bool
  pub as_stream : Call World (Option (Stream Statement))
  pub context_as_stream : Node → Call World (Option (Stream Statement))
  pub get_contexts : Call World (Option (Stream Node))
  pub parser_guess_name : Option Str → List ℕ → Call World (Option Str)
  pub new_parser : Str → Call World (Option Parser)
  pub parse_string : Parser → List ℕ → Option Uri → Call World (Option (Stream Statement))
  pub parse_uri : Parser → Uri → Uri → Call World (Option (Stream Statement))
  pub new_serializer : Option Str → Call World (Option Serializer)
  -- the bytes that are written; a failure is only printed
  pub serialize : Serializer → Stream Statement → Call World (List ℕ)
  pub new_query : Str → Str → Call World (Option Query)
  pub query_execute : Query → Call World (Option Results)
  pub is_bindings : Results → Bool
  pub is_graph : Results → Bool
  pub is_boolean : Results → Bool
  pub is_syntax : Results → Bool
  pub results_as_stream : Results → Call World (Option (Stream Statement))
  pub new_formatter : Results → Option Str → Call World (Option Formatter)
  pub new_iostream : Call World Bool
  pub formatter_write : Formatter → Results → Call World (List ℕ)
  -- the nodes and the temporary model of the service description
  pub Storage : Type 0
  pub Model : Type 0
  pub new_node : Call World (Option Node)
  pub new_node_from_uri_local_name : Uri → Str → Call World (Option Node)
  pub new_node_from_literal : Option Str → Call World (Option Node)
  pub new_node_from_typed_literal : Str → Option Uri → Call World (Option Node)
  pub ms_type : Node
  pub s_label : Node
  pub s_comment : Node
  pub s_is_defined_by : Node
  pub s_see_also : Node
  pub new_storage : Call World (Option Storage)
  pub new_model : Storage → Call World (Option Model)
  -- what the start calls
  pub Hash : Type 0
  pub new_hash_from_string : Option Str → Call World (Option Hash)
  pub hash_put_strings : Hash → Str → Str → Call World Bool
  pub hash_to_string : Hash → List Str → Call World (Option Str)
  pub new_storage_with_options : Option Str → Option Str → Hash → Call World (Option Storage)
  pub new_uri_from_filename : Str → Call World (Option Uri)
  pub model_load : Model → Uri → Option Str → Call World Bool
  pub model_add : Model → Option Node → Option Node → Option Node → Call World Bool
  pub model_as_stream : Model → Call World (Option (Stream Statement))
  pub storage_size : Call World ℤ
  -- what the functions `librdf_…_get_description` enumerate
  pub parsers : List Description
  pub serializers : List Description
  pub results_formats : List Description
  pub query_languages : List Description
  -- the text that raptor_xml_escape_string_write writes
  pub xml_escape : Str → Str
  -- the same with a quotation mark as the quote
  pub xml_escape_quote : Str → Str
  pub librdf_version : Str
  pub raptor_version : Str
  pub rasqal_version : Str
  -- PACKAGE_NAME "/" PACKAGE_VERSION, PACKAGE_VERSION, BUILD_TIME, and the text of the Date header
  pub signature : Str
  pub package_version : Str
  pub build_time : Str
  pub date : Option Str
  -- `malloc`, and `random()` at the first identifier
  pub can_allocate : ℕ → Bool
  pub random : ℕ
