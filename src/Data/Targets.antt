-- ===== src/Data/Targets.antt =====
-- Which graph a request means, and what src/data.c answers when it means none or two.
use redstore.Base.{ℕ, ◌≡◌, refl, true, false, Option, some, arith, Result, ok, Str, codes}
use redstore.Request.{Request}
use redstore.Response.{Response}
use redstore.Format.{is_html_format}
use redstore.Platform.{Platform, log_debug}
use redstore.Program.{Program, redstore_log}
use redstore.Pages.{message_format, page_new_with_message}
use redstore.Pages.Message.{IsPrintable, message_response, page_new_with_message_lem}
use redstore.Data.{Target, target_of}
use redstore.Data.Handlers.{
  both_given, none_given, handle_data_head, handle_data_get, handle_data_post, handle_data_put,
  handle_data_delete,
}

none_given-one : (target : Target) → none_given target ≡ true → both_given target ≡ false
none_given-one target h = ground arith

module _ (S : Platform) where
  open S use {World}

  abbrev pub Outcome : Type 0
  Outcome = Result (Option Response × Request × Program World)

  -- A message of the program in the format of the request, and nothing else.
  abbrev pub message_outcome : Str → ℕ → Str → Request → Program World → Outcome
  message_outcome format_str code message request p = ok (
    some (message_response S (is_html_format format_str) code message p.error_buffer),
    request,
    p,
  )

  module _ (request : Request) (p : Program World) (format_str : Str)
      (speaks : message_format S request ≡ ok (some format_str))
      (printable : IsPrintable p.error_buffer) where
    abbrev refused : Str → Outcome
    refused message = message_outcome format_str 400 message request p

    abbrev both_text : Str
    both_text = codes "The 'graph' and 'default' arguments can not be used together."

    refused_lem :
        (message : Str) → page_new_with_message S log_debug 400 message request p ≡ refused message
    refused_lem message =
        page_new_with_message_lem S log_debug 400 message request p format_str refl printable
          (unfold redstore_log in refl) speaks

    -- A request with both arguments, "graph" and "default", is answered with 400 by each of the
    -- five handlers, and nothing is changed. It accepts a format of the messages, and the buffer of errors, if
    -- any, is not empty.
    handle_data-both :
        both_given (target_of request) ≡ true
        → (handle_data_head S request p ≡ refused both_text)
          × (handle_data_get S request p ≡ refused both_text)
          × (handle_data_post S request p ≡ refused both_text)
          × (handle_data_put S request p ≡ refused both_text)
          × (handle_data_delete S request p ≡ refused both_text)
    unfolding handle_data_head handle_data_get handle_data_post handle_data_put handle_data_delete
    handle_data-both h = (
      rw h (refused_lem both_text),
      rw h (refused_lem both_text),
      rw h (refused_lem both_text),
      rw h (refused_lem both_text),
      rw h (refused_lem both_text),
    )

    abbrev missing_text : Str
    missing_text = codes "Missing graph path or argument."

    -- A request without a path behind /data and without both arguments is answered with 400 by the
    -- handlers of HEAD, GET, PUT and DELETE, and nothing is changed.
    handle_data-missing :
        none_given (target_of request) ≡ true
        → (handle_data_head S request p ≡ refused missing_text)
          × (handle_data_get S request p ≡ refused missing_text)
          × (handle_data_put S request p ≡ refused missing_text)
          × (handle_data_delete S request p ≡ refused missing_text)
    unfolding handle_data_head handle_data_get handle_data_put handle_data_delete
    handle_data-missing h =
        let one = none_given-one (target_of request) h in
        (
          rw (one, h) (refused_lem missing_text),
          rw (one, h) (refused_lem missing_text),
          rw (one, h) (refused_lem missing_text),
          rw (one, h) (refused_lem missing_text),
        )
