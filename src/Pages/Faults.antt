-- ===== src/Pages/Faults.antt =====
-- A message for a client that accepts none of its formats (src/pages.c).
use redstore.Base.{ℕ, ◌≡◌, refl, ap, true, none, some, List, null_pointer, ok, fault, Str, codes}
use redstore.Negotiate.{MediaType, negotiate_choose}
use redstore.Negotiate.Double.{negotiate_parse}
use redstore.Request.{Request, get_argument, get_header}
use redstore.Format.{negotiate_string, is_choice}
use redstore.Platform.{LogLevel, Platform}
use redstore.Program.{Program}
use redstore.Pages.{message_format, page_new_with_message, supported}

module _ (S : Platform) (request : Request) (accept_str : Str) (own accept : List MediaType) where
  open S use {double}

  -- The client asks for types by its header, and none of them is one of a message.
  pub record AcceptsNone : Type 0 where
    pub no_format : get_argument request (codes "format") ≡ none
    pub accepts : get_header request (codes "Accept") ≡ some accept_str
    pub chooses : is_choice accept_str ≡ true
    pub parsed : negotiate_parse double (some accept_str) ≡ ok accept
    pub own_parsed : negotiate_parse double (some (supported S)) ≡ ok own
    pub none_chosen : negotiate_choose own accept ≡ none

  no_format_found : AcceptsNone → message_format S request ≡ ok none
  unfolding negotiate_string
  no_format_found h =
      rw (h.no_format, h.accepts)
        (rw h.chooses (rw h.parsed (rw h.own_parsed (ap ok h.none_chosen))))

  -- If a client without a format argument accepts only types that a message does not have, every message
  -- for it, of any status, ends in the comparison of a null pointer.
  pub page_new_with_message-null :
      (level : LogLevel) (code : ℕ) (message : Str) (p : Program S.World)
      → AcceptsNone
      → page_new_with_message S level code message request p ≡ fault null_pointer
  unfolding page_new_with_message
  page_new_with_message-null level code message p h = rw (no_format_found h) refl
