-- ===== src/Description/Html.antt =====
-- The description of the service as a page (src/description.c).
use redstore.Base.{
  ℕ, ◌+◌, ◌/◌, ◌%◌, ◌^◌, Option, none, some, List, [], ◌∷◌, ◌++◌, ◌==◌, if◌then◌else◌, Str, codes,
  ℤ, pos, negsuc,
}
use redstore.Negotiate.{MediaType}
use redstore.Request.Read.{int_of_word}
use redstore.Response.{Response}
use redstore.Format.{Description}
use redstore.Platform.{Platform, Stream}
use redstore.Program.{Program, Action, call, lift, logged}
use redstore.Program.Monad.{◌>>=◌, ◌>>◌, pure, the_program}
use redstore.Pages.{
  Page, append_string, append_strings, append_decimal, append_escaped, page_new, page_end,
}
use redstore.Description.{StoreInfo}

-- A count, which is passed as an int.
abbrev int_of_count : ℕ → ℤ
int_of_count n = int_of_word (n % 2 ^ 32)

unfoldable pub append_names : Page → List Str → Page
append_names page [] = page
append_names page (name ∷ next) =
    append_names (append_string (append_string page name) (codes "<br />\n")) next

-- The quality of a type, unless it is 1.
abbrev append_quality : Page → ℕ → Page
append_quality page q =
    if q == 10
    then page
    else append_string
        (append_decimal
          (append_string (append_decimal (append_string page (codes " <i>(")) (pos (q / 10)))
            (codes "."))
          (pos (q % 10)))
        (codes ")</i>")

unfoldable pub append_mime_types : Page → List MediaType → Page
unfolding append_decimal
append_mime_types page [] = page
append_mime_types page (m ∷ next) =
    append_mime_types
      (append_string (append_quality (append_string page m.type) m.q) (codes "<br />\n")) next

abbrev append_label : Page → Option Str → Page
append_label page none = page
append_label page (some label) = append_string page label

-- The texts for one call, which ends at a NULL.
abbrev options_row : Option Str → List Str
options_row none = codes "<tr><th>Storage Options</th><td>" ∷ []
options_row (some options) =
    codes "<tr><th>Storage Options</th><td>" ∷ options ∷ codes "</td></tr>\n" ∷ []

unfoldable pub count_row : Page → Str → ℤ → Page
unfolding append_decimal
count_row page title n =
    append_string
      (append_decimal (append_string page (codes "<tr><th>" ++ (title ++ codes "</th><td>"))) n)
      (codes "</td></tr>\n")

module _ (S : Platform) where
  open S use {World, Node}

  abbrev append_link : Page → Str → Page
  append_link page uri_string =
      append_strings
        (append_escaped S
          (append_string
            (append_string (append_string page (codes "<a href=\""))
              (S.xml_escape_quote uri_string))
            (codes "\">"))
          uri_string)
        (codes "</a>" ∷ codes "<br />\n" ∷ [])

  unfoldable pub append_links : Page → List Str → Page
  append_links page [] = page
  append_links page (uri_string ∷ next) = append_links (append_link page uri_string) next

  abbrev append_uris : Page → Option (List Str) → Page
  append_uris page none = page
  append_uris page (some uri_strings) = append_links page uri_strings

  -- One row of a table.
  unfoldable pub table_row : Page → Description → Page
  unfolding append_names append_mime_types append_links
  table_row page desc =
      let named =
        append_string
          (append_names (append_string (append_string page (codes "<tr>")) (codes "<td>"))
            desc.names)
          (codes "</td>\n") in
      let labelled =
        append_string (append_label (append_string named (codes "<td>")) desc.label)
          (codes "</td>\n") in
      let typed =
        append_string (append_mime_types (append_string labelled (codes "<td>")) desc.mime_types)
          (codes "</td>\n") in
      append_string
        (append_string (append_uris (append_string typed (codes "<td>")) desc.uri_strings)
          (codes "</td>\n"))
        (codes "</tr>\n")

  unfoldable pub table_rows : Page → List Description → Page
  unfolding table_row
  table_rows page [] = page
  table_rows page (desc ∷ next) = table_rows (table_row page desc) next

  unfoldable pub description_html_table : Str → List Description → Page → Page
  unfolding table_rows
  description_html_table title descs page =
      append_string
        (table_rows
          (append_strings page (
            codes "<h2>"
            ∷ title
            ∷ codes "</h2>\n"
            ∷ codes "<table border=\"1\">\n"
            ∷ codes "<tr><th>Name</th><th>Description</th><th>MIME Type</th><th>URIs</th></tr>\n"
            ∷ []))
          descs)
        (codes "</table>\n")

  unfoldable pub count_contexts : Stream Node → ℕ → Action World ℕ
  count_contexts [] count = pure count
  count_contexts ((graph, messages) ∷ next) count =
      logged messages >> count_contexts next (count + 1)

  abbrev count_of : Option (Stream Node) → Action World ℤ
  count_of none = pure (negsuc 0)
  count_of (some iterator) = count_contexts iterator 0 >>= λ count. pure (int_of_count count)

  unfoldable pub context_count : Action World ℤ
  unfolding count_contexts
  context_count = call S.get_contexts >>= count_of

  abbrev store_table : StoreInfo → Page → Page
  store_table info page =
      append_strings
        (append_strings
          (append_strings
            (append_strings page
              (codes "<h2>Store Information</h2>\n" ∷ codes "<table border=\"1\">\n" ∷ []))
            (codes "<tr><th>Storage Name</th><td>" ∷ info.storage_name ∷ codes "</td></tr>\n" ∷ []))
          (codes "<tr><th>Storage Type</th><td>" ∷ info.storage_type ∷ codes "</td></tr>\n" ∷ []))
        (options_row info.public_storage_options)

  abbrev count_rows : Program World → Page → Page
  count_rows p page =
      append_string
        (count_row
          (count_row (count_row page (codes "HTTP Request Count") (int_of_count p.request_count))
            (codes "Successful Import Count") (int_of_count p.import_count))
          (codes "SPARQL Query Count") (int_of_count p.query_count))
        (codes "</table>\n")

  abbrev format_tables : Page → Page
  format_tables page = description_html_table (codes "Output RDF Formats") S.serializers (
      description_html_table (codes "Input RDF Formats") S.parsers (
        description_html_table (codes "Query Result Formats") S.results_formats
          (description_html_table (codes "Query Languages") S.query_languages page)))

  unfoldable pub handle_html_description : StoreInfo → Action World (Option Response)
  unfolding context_count description_html_table count_row
  handle_html_description info = do
    page ← lift (page_new 200 (some (codes "Service Description")))
    triples ← call S.storage_size
    contexts ← context_count
    p ← the_program
    let counted =
        count_row (count_row (store_table info page) (codes "Triple Count") triples)
          (codes "Named Graph Count") contexts
    response ← lift (
        page_end S (
          append_strings (format_tables (count_rows p counted)) (
            codes
              "<p>This document is also available as <a href=\"description?format=turtle\">RDF</a>.</p>\n"
            ∷ [])))
    pure (some response)
