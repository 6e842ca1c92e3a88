-- ===== src/Program.antt =====
-- The state of the program (src/globals.c, and `base_id` of src/genid.c), its log (src/utils.c), and
-- how a handler runs on it. What is printed is left out, but for the formats.
pub mod Monad
pub mod Calls
pub mod Steps
use redstore.Base.{
  ℕ, zero, suc, ◌+◌, Bool, true, false, not, ◌&&◌, ◌||◌, ◌==◌, bad_read, Option, none, some, List,
  [], ◌∷◌, ◌++◌, if◌then◌else◌, process_exit, String, Result, ok, fault, ◌>>=◌, ◌>>◌, Str, codes, ℤ,
  pos, negsuc, decimal,
}
use redstore.Request.{Request}
use redstore.Response.{Response}
use redstore.Server.{HandlerFunc}
use redstore.Platform.{
  LogLevel, log_none, log_debug, log_info, log_warn, log_error, log_fatal, Locator, LogMessage,
  Reply, Call,
}

pub record Program (W : Type 0) : Type 0 where
  pub world : W
  pub error_buffer : Option Str
  pub request_count : ℕ
  pub query_count : ℕ
  pub import_count : ℕ
  pub base_id : ℕ
  pub quiet : Bool
  pub verbose : Bool
  pub running : Bool
  pub exit_code : ℕ

-- `if (byte > 0)` and what follows
abbrev place : String → ℤ → Str
place name (negsuc n) = []
place name (pos zero) = []
place name (pos (suc n)) = codes name ++ decimal (suc n)

abbrev places : Option Locator → Str
places none = []
places (some locator) =
    place ", byte " locator.byte
    ++ (place ", line " locator.line ++ place ", column " locator.column)

abbrev pub text_of : Option Str → Str
text_of none = []
text_of (some s) = s

-- What an error adds to the buffer. A message that is NULL adds nothing.
abbrev pub error_line : LogMessage → Str
error_line log_msg = text_of log_msg.message ++ (places log_msg.locator ++ b'\n' ∷ [])

abbrev pub is_error : LogLevel → Bool
is_error log_error = true
is_error level = false

-- The buffer is made for a message of any level, and only errors are added to it.
abbrev pub noted : LogMessage → Option Str → Str
noted log_msg error_buffer =
    if is_error log_msg.level
    then text_of error_buffer ++ error_line log_msg
    else text_of error_buffer

-- Does a format ask for an argument? Behind a percent sign, "%%" prints one, and "%m" of glibc needs none.
unfoldable pub has_directive : Bool → Str → Bool
has_directive percent [] = percent
has_directive false (c ∷ format) = has_directive (c == b'%') format
has_directive true (c ∷ format) =
    let rest = has_directive false format in if (c == b'%') || (c == b'm') then rest else true

module _ {W : Type 0} where
  -- `redstore_log`: a fatal message stops the program, at once if it is stopping already.
  unfoldable pub redstore_log : LogLevel → Program W → Result (Program W)
  redstore_log log_fatal p =
      if p.running
      then ok (record p { exit_code = p.exit_code + 1; running = false })
      else fault process_exit
  redstore_log level p = ok p

  -- Does `redstore_log` print messages of the level?
  abbrev pub prints : LogLevel → Program W → Bool
  prints log_debug p = p.verbose
  prints log_info p = not p.quiet
  prints level p = true

  -- The message is the format of `vprintf`, which has no arguments.
  abbrev pub log_text : Option Str → LogLevel → Program W → Result (Program W)
  log_text none level p = ok p
  log_text (some message) level p =
      if prints level p && has_directive false message then fault bad_read else redstore_log level p

  unfoldable pub redland_log_handler : LogMessage → Program W → Result (Program W)
  unfolding redstore_log has_directive
  redland_log_handler log_msg p = do
    p' ← log_text log_msg.message log_msg.level p
    ok (record p' { error_buffer = some (noted log_msg p'.error_buffer) })

  unfoldable pub log_all : List LogMessage → Program W → Result (Program W)
  log_all [] p = ok p
  log_all (log_msg ∷ next) p = redland_log_handler log_msg p >>= log_all next

-- What a handler does, with the request and the state of the program, which it may change.
abbrev pub Action : Type 0 → Type 0 → Type 0
Action W A = Request → Program W → Result (A × Request × Program W)

-- The result of a call, after its messages have been logged.
abbrev pub answered_call :
    {W A : Type 0} → Reply W A → Request → Program W → Result (A × Request × Program W)
answered_call reply request p = do
  p' ← log_all reply.messages (record p { world = reply.world })
  ok (reply.value, request, p')

abbrev pub logged : {W : Type 0} → List LogMessage → Action W Unit
logged messages request p = do p' ← log_all messages p; ok (tt, request, p')

abbrev pub call : {W A : Type 0} → Call W A → Action W A
call operation request p = answered_call (operation p.world) request p

abbrev pub lift : {W A : Type 0} → Result A → Action W A
lift result request p = do a ← result; ok (a, request, p)

abbrev pub log : {W : Type 0} → LogLevel → Action W Unit
log level request p = do p' ← redstore_log level p; ok (tt, request, p')

abbrev pub handler : {W : Type 0} → Action W (Option Response) → HandlerFunc (Program W)
handler action request user_data p = action request p
