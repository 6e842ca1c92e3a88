-- ===== src/Query.antt =====
-- src/query.c: SPARQL queries. The description of the service, which a request without a query may
-- be answered with, is a parameter.
use redstore.Base.{◌+◌, ◌%◌, ◌^◌, Option, none, some, if◌then◌else◌, Str, codes, str_eq}
use redstore.Request.{not_null, get_argument}
use redstore.Response.{Response}
use redstore.Platform.{Platform, Stream, log_debug, log_info, log_error}
use redstore.Program.{Action, call, lift}
use redstore.Program.Monad.{◌>>=◌, ◌>>◌, pure, the_request, the_program, set_program}
use redstore.Pages.Forms.{handle_page_query_form}
use redstore.Formatters.{format_graph_stream, format_bindings_query_result}
use redstore.Update.{argument, message}

-- `query_count++`, of an `unsigned long`
abbrev count_query : {W : Type 0} → Action W Unit
count_query = do
  p ← the_program
  set_program (record p { query_count = (p.query_count + 1) % 2 ^ 64 })

-- `lang`, or DEFAULT_QUERY_LANGUAGE
abbrev language : Option Str → Str
language none = codes "laqrs"
language (some lang) = lang

module _ (S : Platform) where
  open S use {World, Query, Results, Statement, is_bindings, is_graph, is_boolean, is_syntax}

  abbrev graph_results : Option (Stream Statement) → Action World (Option Response)
  graph_results none = message S log_debug 500 (codes "Failed to get query results graph.")
  graph_results (some stream) = format_graph_stream S stream

  unfoldable pub format_results : Results → Action World (Option Response)
  format_results results =
      if is_bindings results
      then format_bindings_query_result S results
      else if is_graph results
      then (call (S.results_as_stream results) >>= graph_results)
      else if is_boolean results
      then format_bindings_query_result S results
      else if is_syntax results
      then message S log_info 501 (codes "Syntax results format is not supported.")
      else message S log_info 500 (codes "Unknown librdf results type.")

  abbrev answer_results : Option Results → Action World (Option Response)
  answer_results none =
      message S log_info 500 (codes "There was an error while executing the query.")
  answer_results (some results) = count_query >> format_results results

  abbrev execute : Option Query → Action World (Option Response)
  execute none = message S log_error 500 (codes "There was an error while creating the query.")
  execute (some query) = call (S.query_execute query) >>= answer_results

  unfoldable pub perform_query : Str → Action World (Option Response)
  unfolding format_results
  perform_query query_string = do
    lang ← argument (codes "lang")
    query ← call (S.new_query (language lang) query_string)
    execute query

  abbrev query_form : Action World (Option Response)
  query_form = lift (handle_page_query_form S) >>= λ response. pure (some response)

  abbrev query_or_form : Option Str → Action World (Option Response)
  query_or_form none = query_form
  query_or_form (some query_string) = perform_query query_string

  unfoldable pub handle_query : Action World (Option Response)
  handle_query = argument (codes "query") >>= query_or_form

  abbrev no_query : Action World (Option Response) → Option Str → Action World (Option Response)
  no_query handle_description_get method = do
    asked ← lift (not_null method)
    if str_eq asked (codes "GET")
        then handle_description_get
        else message S log_info 400 (codes "Missing query string.")

  unfoldable pub handle_sparql : Action World (Option Response) → Action World (Option Response)
  handle_sparql handle_description_get = do
    request ← the_request
    elim (get_argument request (codes "query")) [
      | some query_string ↦ perform_query query_string
      | none ↦ no_query handle_description_get request.method
    ]
