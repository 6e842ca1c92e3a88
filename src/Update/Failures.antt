-- ===== src/Update/Failures.antt =====
-- How loading into a graph ends when something is logged or fails (src/update.c).
use redstore.Base.{
  ℕ, ◌≡◌, refl, ap, ◌∙◌, true, false, Option, some, List, [], ◌∷◌, ◌++◌, All, null_pointer, ok,
  fault, Str, codes,
}
use redstore.Request.{Request}
use redstore.Platform.{Platform, Stream, LogMessage, log_info, log_error}
use redstore.Program.{Program, text_of, is_error, redstore_log, log_all}
use redstore.Program.Calls.{quiet, IsLoggable, error_lines, log_all-buffer}
use redstore.Format.{is_html_format}
use redstore.Pages.{printed_str, message_format, page_new_with_message}
use redstore.Pages.Message.{
  IsPrintable, message_response, begun, page_new-status, message_html-null,
  page_new_with_message_lem,
}
use redstore.Update.{load_stream_into_graph, clear_and_load_stream_into_graph, graph_name}

no_error_lines :
    (messages : List LogMessage)
    → All (λ log_msg. is_error log_msg.level ≡ false) messages
    → error_lines messages ≡ []
no_error_lines [] h = refl
no_error_lines (log_msg ∷ next) (other, h) = rw (other, no_error_lines next h) refl

-- Without an error no line is noted.
no_lines :
    (buffer : Option Str) (messages : List LogMessage)
    → text_of buffer ≡ []
    → All (λ log_msg. is_error log_msg.level ≡ false) messages
    → text_of buffer ++ error_lines messages ≡ []
no_lines buffer messages before h = rw (before, no_error_lines messages h) refl

module _ (S : Platform) (request : Request) (p : Program S.World) (node : S.Node)
    (stream : Stream S.Statement) (format_str : Str)
    (speaks : message_format S request ≡ ok (some format_str)) where
  open S use {World, Node, Statement}

  abbrev failed_text : Str
  failed_text = codes "Error while adding triples to: " ++ printed_str (graph_name S (some node))

  -- If the statements are added to a named graph but messages are logged meanwhile, an error among
  -- them or before, the answer is 500, with the lines of the errors. The messages are not fatal and
  -- have no printf directive, and the request accepts a format of the messages.
  pub load_stream_into_graph-logged :
      (m : LogMessage) (messages : List LogMessage) (w : World) (c : ℕ) (errors : Str)
      → S.context_add_statements (some node) stream p.world
        ≡ record { value = false; world = w; messages = m ∷ messages }
      → All IsLoggable (m ∷ messages)
      → text_of p.error_buffer ++ error_lines (m ∷ messages) ≡ c ∷ errors
      → load_stream_into_graph S stream (some node) request p
        ≡ ok (
          some (message_response S (is_html_format format_str) 500 failed_text (some (c ∷ errors))),
          request,
          record p { world = w; error_buffer = some (c ∷ errors) },
        )
  unfolding load_stream_into_graph
  load_stream_into_graph-logged m messages w c errors e calm lines = rw e (
      rw
        (log_all-buffer (m ∷ messages) (record p { world = w }) calm
          ∙ ap (λ b. ok (record p { world = w; error_buffer = some b })) lines)
        (page_new_with_message_lem S log_info 500 failed_text request
          (record p { world = w; error_buffer = some (c ∷ errors) }) format_str refl
          (λ none_logged. cc none_logged) (unfold redstore_log in refl) speaks))

  -- If the statements are added to a named graph for a client that takes HTML, and messages are logged
  -- meanwhile, none of them an error and no error logged before, a null pointer is used: the buffer of
  -- the errors has been made, and is empty. The messages are not fatal and have no printf directive.
  pub load_stream_into_graph-warned :
      (m : LogMessage) (messages : List LogMessage) (w : World)
      → S.context_add_statements (some node) stream p.world
        ≡ record { value = false; world = w; messages = m ∷ messages }
      → All IsLoggable (m ∷ messages)
      → All (λ log_msg. is_error log_msg.level ≡ false) (m ∷ messages)
      → text_of p.error_buffer ≡ []
      → is_html_format format_str ≡ true
      → load_stream_into_graph S stream (some node) request p ≡ fault null_pointer
  unfolding load_stream_into_graph page_new_with_message
  load_stream_into_graph-warned m messages w e calm no_error before html = rw e (
      rw
        (log_all-buffer (m ∷ messages) (record p { world = w }) calm
          ∙ ap (λ b. ok (record p { world = w; error_buffer = some b }))
              (no_lines p.error_buffer (m ∷ messages) before no_error))
        (rw speaks (
          rw html (
            rw (page_new-status S 500 refl)
              (rw (message_html-null S failed_text (begun S 500 _)) refl)))))

  -- If the statements of a PUT cannot be added, the answer is 500, and what the graph held has been
  -- removed all the same.
  clear_and_load-fails :
      (cleared w : World)
      → S.context_remove_statements node p.world ≡ quiet false cleared
      → S.context_add_statements (some node) stream cleared ≡ quiet true w
      → IsPrintable p.error_buffer
      → clear_and_load_stream_into_graph S stream (some node) request p
        ≡ ok (
          some (
              message_response S
                (is_html_format format_str)
                500
                (codes "Failed to add triples to graph.")
                p.error_buffer),
          request,
          record p { world = w },
        )
  unfolding clear_and_load_stream_into_graph load_stream_into_graph log_all
  clear_and_load-fails cleared w e fails printable = rw e (
      rw fails (
        page_new_with_message_lem S log_error 500 (codes "Failed to add triples to graph.") request
          (record p { world = w }) format_str refl printable (unfold redstore_log in refl) speaks))
