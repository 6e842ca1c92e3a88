-- ===== src/Program/Calls.antt =====
-- Calls of the libraries that log nothing, and what logging leaves in the error buffer
-- (src/redstore.c).
use redstore.Base.{
  ◌≡◌, refl, sym, ap, ◌∙◌, ◌≢◌, inl, inr, Bool, true, false, ◌&&◌, if_false, Option, none, some,
  List, [], ◌∷◌, ◌++◌, append_assoc, append-nil, if◌then◌else◌, Bool-cases, All, ok, Str,
}
use redstore.Request.{Request}
use redstore.Platform.{
  LogLevel, log_none, log_debug, log_info, log_warn, log_error, log_fatal, LogMessage, Reply, Call,
  Stream,
}
use redstore.Program.{
  Program, call, redstore_log, redland_log_handler, log_all, log_text, prints, has_directive, noted,
  error_line, text_of, is_error,
}

abbrev pub quiet : {W A : Type 0} → A → W → Reply W A
quiet value world = record { value = value; world = world; messages = [] }

-- A stream of the objects, without messages.
abbrev pub stream_of : {A : Type 0} → List A → Stream A
stream_of [] = []
stream_of (a ∷ next) = (some a, []) ∷ stream_of next

pub call-quiet :
    {W A : Type 0} (operation : Call W A) (request : Request) (p : Program W) (a : A) (world : W)
    → operation p.world ≡ quiet a world
    → call operation request p ≡ ok (a, request, record p { world = world })
unfolding log_all
call-quiet operation request p a world e = rw e refl

-- A message that is logged and no more: it is not fatal, and as a format it asks for no argument.
abbrev pub IsLoggable : LogMessage → Type 0
IsLoggable log_msg =
    (log_msg.level ≢ log_fatal) × (has_directive false (text_of log_msg.message) ≡ false)

redstore_log-quiet :
    {W : Type 0} (level : LogLevel) (p : Program W)
    → level ≢ log_fatal
    → redstore_log level p ≡ ok p
unfolding redstore_log
redstore_log-quiet log_none p h = refl
redstore_log-quiet log_debug p h = refl
redstore_log-quiet log_info p h = refl
redstore_log-quiet log_warn p h = refl
redstore_log-quiet log_error p h = refl
redstore_log-quiet log_fatal p h = absurd (h refl)

and-false : (b : Bool) → (b && false) ≡ false
and-false true = refl
and-false false = refl

log_text-quiet :
    {W : Type 0} (message : Option Str) (level : LogLevel) (p : Program W)
    → level ≢ log_fatal
    → has_directive false (text_of message) ≡ false
    → log_text message level p ≡ ok p
log_text-quiet none level p h k = refl
log_text-quiet (some message) level p h k =
    let plain : (prints level p && has_directive false message) ≡ false =
      ap (λ b. prints level p && b) k ∙ and-false (prints level p) in
    if_false _ _ _ plain ∙ redstore_log-quiet level p h

-- The lines of the errors among the messages.
abbrev pub error_lines : List LogMessage → Str
error_lines [] = []
error_lines (log_msg ∷ next) =
    (if is_error log_msg.level then error_line log_msg else []) ++ error_lines next

-- The buffer after some messages: unset only if it was, and there are none.
abbrev pub buffer_after : List LogMessage → Option Str → Option Str
buffer_after [] buffer = buffer
buffer_after (log_msg ∷ next) buffer = some (text_of buffer ++ error_lines (log_msg ∷ next))

noted-lines :
    (log_msg : LogMessage) (buffer : Option Str)
    → noted log_msg buffer
      ≡ text_of buffer ++ (if is_error log_msg.level then error_line log_msg else [])
noted-lines log_msg buffer = elim (Bool-cases (is_error log_msg.level)) [
  | inl error ↦ rw error refl
  | inr other ↦ rw other (sym (append-nil (text_of buffer)))
]

buffer_after-cons :
    (log_msg : LogMessage) (next : List LogMessage) (buffer : Option Str)
    → buffer_after next (some (noted log_msg buffer)) ≡ buffer_after (log_msg ∷ next) buffer
buffer_after-cons log_msg [] buffer =
    ap some (noted-lines log_msg buffer ∙ ap (λ t. text_of buffer ++ t) (sym (append-nil _)))
buffer_after-cons log_msg (second ∷ next) buffer = ap some (
    ap (λ t. t ++ error_lines (second ∷ next)) (noted-lines log_msg buffer)
    ∙ append_assoc (text_of buffer) _ (error_lines (second ∷ next)))

-- Messages that are not fatal, and ask for no argument as formats, leave the program as it was but for the error buffer: it holds the
-- lines of the errors, in order, behind what it held. It is set as soon as there is a message, and
-- even if none is an error.
pub log_all-buffer :
    {W : Type 0} (messages : List LogMessage) (p : Program W)
    → All IsLoggable messages
    → log_all messages p ≡ ok (record p { error_buffer = buffer_after messages p.error_buffer })
unfolding log_all redland_log_handler
log_all-buffer [] p h = refl
log_all-buffer (log_msg ∷ next) p ((h, k), rest) =
    rw (log_text-quiet log_msg.message log_msg.level p h k) (
      log_all-buffer next (record p { error_buffer = some (noted log_msg p.error_buffer) }) rest
      ∙ ap (λ b. ok (record p { error_buffer = b }))
          (buffer_after-cons log_msg next p.error_buffer))
