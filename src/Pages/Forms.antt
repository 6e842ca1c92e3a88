-- ===== src/Pages/Forms.antt =====
-- The pages of src/pages.c for people: the home page, the forms, and robots.txt.
use redstore.Base.{
  false, Option, none, some, List, [], ◌∷◌, ◌++◌, if◌then◌else◌, length, bad_read, Result, ok,
  fault, ◌>>=◌, Str, codes, str_eq,
}
use redstore.Request.{Request}
use redstore.Response.{Response, response_new_with_type, set_content, add_header}
use redstore.Format.{Description}
use redstore.Server.{UserData, no_data, counter, text_data}
use redstore.Platform.{Platform}
use redstore.Pages.{Page, append_string, append_strings, append_escaped, page_new, page_end}

-- `if (default_name && strcmp(name_str, default_name) == 0)`
abbrev selected : Option Str → Str → List Str
selected none name_str = []
selected (some default_name) name_str =
    if str_eq name_str default_name then codes " selected=\"selected\"" ∷ [] else []

abbrev field_start : Option Str → List Str
field_start none = []
field_start (some field_name) = codes "<select name=\"" ∷ field_name ∷ codes "\">\n" ∷ []

abbrev field_end : Option Str → List Str
field_end none = []
field_end (some field_name) = codes "</select>\n" ∷ []

-- The title that `user_data` points to.
abbrev title_data : UserData → Result (Option Str)
title_data no_data = ok none
title_data (text_data title) = ok (some title)
title_data counter = fault bad_read

-- The strings of `"<form … action=\"", action, "\">\n", NULL`, of which a NULL is the last.
abbrev form_start : Option Str → List Str
form_start none = codes "<form method=\"post\" action=\"" ∷ []
form_start (some action) = codes "<form method=\"post\" action=\"" ∷ action ∷ codes "\">\n" ∷ []

-- A page is written up, and its text becomes the content.
module _ (S : Platform) where
  open S use {build_time, parsers, serializers, results_formats, query_languages}

  -- One option of a list, for a syntax with a name and a label.
  abbrev option_of : Option Str → Page → List Str → Option Str → Page
  option_of default_name page [] label = page
  option_of default_name page (name_str ∷ names) none = page
  option_of default_name page (name_str ∷ names) (some label) =
      append_string
        (append_escaped S
          (append_strings page (
            codes "<option value=\""
            ∷ name_str
            ∷ codes "\""
            ∷ (selected default_name name_str ++ codes ">" ∷ [])))
          label)
        (codes "</option>\n")

  abbrev options_of : Option Str → Page → List Description → Page
  options_of default_name page [] = page
  options_of default_name page (desc ∷ next) =
      options_of default_name (option_of default_name page desc.names desc.label) next

  unfoldable pub syntax_select_list : Option Str → Option Str → List Description → Page → Page
  unfolding append_strings
  syntax_select_list field_name default_name descs page =
      append_strings (options_of default_name (append_strings page (field_start field_name)) descs)
        (field_end field_name)

  -- A new page with the time of the build in its header.
  abbrev dated_page : Str → Result Page
  dated_page title = do
    page ← page_new 200 (some title)
    response ← add_header page.response (codes "Last-Modified") (some build_time)
    ok (record page { response = response })

  unfoldable pub handle_page_home : Result Response
  handle_page_home = do
    page ← dated_page (codes "RedStore")
    page_end S (
        append_strings page (
          codes "<ul>\n"
          ∷ codes "  <li><a href=\"/query\">Query Form</a></li>\n"
          ∷ codes "  <li><a href=\"/graphs\">List Named Graphs</a></li>\n"
          ∷ codes "  <li>Update:<ul>"
          ∷ codes "    <li><a href=\"/load\">Load URI</a></li>"
          ∷ codes "    <li><a href=\"/insert\">Insert Triples</a></li>"
          ∷ codes "    <li><a href=\"/delete\">Delete Triples</a></li>"
          ∷ codes "  </ul></li>\n"
          ∷ codes "  <li><a href=\"/data?default&amp;format=nquads\">Download Dump</a></li>\n"
          ∷ codes "  <li><a href=\"/description\">Service Description</a></li>\n"
          ∷ codes "</ul>\n"
          ∷ []))

  abbrev robots_text : Str
  robots_text = codes "User-agent: *\nDisallow: /\n"

  unfoldable pub handle_page_robots_txt : Result Response
  handle_page_robots_txt = do
    response ← response_new_with_type 200 none (some (codes "text/plain"))
    response' ← add_header response (codes "Last-Modified") (some build_time)
    set_content response' robots_text (length robots_text) false

  abbrev query_form_start : List Str
  query_form_start =
      codes "<form action=\"./query\" method=\"get\">\n"
      ∷ codes "<div><textarea name=\"query\" cols=\"80\" rows=\"18\">\n"
      ∷ codes "PREFIX rdf: &lt;http://www.w3.org/1999/02/22-rdf-syntax-ns#&gt;\n"
      ∷ codes "PREFIX rdfs: &lt;http://www.w3.org/2000/01/rdf-schema#&gt;\n\n"
      ∷ codes "SELECT * WHERE {\n GRAPH ?g {?s ?p ?o}\n} LIMIT 10\n"
      ∷ codes "</textarea></div>\n"
      ∷ codes "<div class=\"buttons\">\n"
      ∷ codes "Query Language: "
      ∷ []

  abbrev query_form_formats : List Str
  query_form_formats =
      codes "<br />"
      ∷ codes "Result Format: "
      ∷ codes "<select name=\"format\">\n"
      ∷ codes "<optgroup label=\"Query Results Formats\">\n"
      ∷ []

  abbrev query_form_end : List Str
  query_form_end =
      codes "</optgroup>\n"
      ∷ codes "</select>\n"
      ∷ codes "<br />"
      ∷ codes "<input type=\"reset\" /> "
      ∷ codes "<input type=\"submit\" value=\"Execute\" />\n"
      ∷ codes "</div></form>\n"
      ∷ []

  unfoldable pub handle_page_query_form : Result Response
  handle_page_query_form = do
    page ← dated_page (codes "Query Form")
    let languages =
        syntax_select_list (some (codes "lang")) (some (codes "laqrs")) query_languages
          (append_strings page query_form_start)
    let results =
        syntax_select_list none (some (codes "html")) results_formats
          (append_strings languages query_form_formats)
    let graphs = syntax_select_list none none serializers (
        append_strings results
          (codes "</optgroup>\n" ∷ codes "<optgroup label=\"RDF Formats\">\n" ∷ []))
    page_end S (append_strings graphs query_form_end)

  abbrev update_form_end : List Str
  update_form_end =
      codes "<br />"
      ∷ codes
          "<label for=\"graph\">Graph:</label> <input id=\"graph\" name=\"graph\" type=\"text\" size=\"40\" /> <i>(optional)</i><br />\n<label for=\"base-uri\">Base URI:</label> <input id=\"base-uri\" name=\"base-uri\" type=\"text\" size=\"40\" /> <i>(optional)</i><br />\n<input type=\"reset\" /> <input type=\"submit\" />\n</div></form>\n"
      ∷ []

  unfoldable pub handle_page_update_form : Request → UserData → Result Response
  handle_page_update_form request user_data = do
    title ← title_data user_data
    page ← page_new 200 title
    response ← add_header page.response (codes "Last-Modified") (some build_time)
    let form =
        append_strings (record page { response = response })
          (form_start request.path
            ++ codes "<div><textarea name=\"content\" cols=\"80\" rows=\"18\">\n"
              ∷ codes
                  "&lt;http://example.com/&gt; &lt;http://purl.org/dc/terms/title&gt; \"Example Web Page\" .\n"
              ∷ codes "</textarea></div>\n"
              ∷ codes "<div class=\"buttons\">\n"
              ∷ codes "Triples syntax: "
              ∷ [])
    let syntaxes =
        syntax_select_list (some (codes "content-type")) (some (codes "ntriples")) parsers form
    page_end S (append_strings syntaxes update_form_end)

  unfoldable pub handle_page_load_form : Result Response
  handle_page_load_form = do
    page ← dated_page (codes "Load URI")
    page_end S (
        append_string page (
          codes
            "<form method=\"post\" action=\"/load\"><div>\n<label for=\"uri\">URI:</label> <input id=\"uri\" name=\"uri\" type=\"text\" size=\"40\" /><br />\n<label for=\"graph\">Graph:</label> <input id=\"graph\" name=\"graph\" type=\"text\" size=\"40\" /> <i>(optional)</i><br />\n<label for=\"base-uri\">Base URI:</label> <input id=\"base-uri\" name=\"base-uri\" type=\"text\" size=\"40\" /> <i>(optional)</i><br />\n<input type=\"reset\" /> <input type=\"submit\" />\n</div></form>\n"))
