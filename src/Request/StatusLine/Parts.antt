-- ===== src/Request/StatusLine/Parts.antt =====
-- The parts of a status line (src/redhttp/request.c).
use redstore.Base.{
  ℕ, ◌<◌, ◌≡◌, refl, ap, ◌∙◌, ◌≢◌, Bool, true, false, none, some, [], ◌∷◌, ◌++◌, map, append_assoc,
  arith, if_false, if_true, All, All-append, ok, Str, codes, cstr, strn_eq, strchr, isspace,
  islower, isupper, isalpha, toupper, skip_while, take_while, trim_right,
}
use redstore.Socket.Lines.{CanAllocate}
use redstore.Socket.Crlf.{IsPlain, FitsBuffer, cstr-plain, read_line-crlf}
use redstore.Url.{url_unescape}
use redstore.Request.{Request}
use redstore.Request.Setters.{set_method, set_path_and_query, set_version}
use redstore.Request.StatusLine.{
  split_last_space, is_version, path_and_version, is_gap, is_end, split_path, split_status_line,
  is_empty, read_status_line,
}

-- A byte of a path or a version: neither white space nor NUL.
abbrev pub IsGraphic : ℕ → Type 0
IsGraphic c = (isspace c ≡ false) × (c ≢ 0)

take_while-append :
    (p : ℕ → Bool) (s : Str) (d : ℕ) (t : Str)
    → All (λ c. p c ≡ true) s
    → p d ≡ false
    → (take_while p (s ++ d ∷ t) ≡ s) × (skip_while p (s ++ d ∷ t) ≡ d ∷ t)
unfolding take_while skip_while
take_while-append p [] d t h k = (rw k, rw k)
take_while-append p (c ∷ s) d t (q, h) k =
    let (taken, skipped) = take_while-append p s d t h k in (rw q (rw taken), rw q skipped)

trim_right-append :
    (s : Str) (d : ℕ) (t : Str) → trim_right (d ∷ t) ≡ d ∷ t → trim_right (s ++ d ∷ t) ≡ s ++ d ∷ t
unfolding trim_right
trim_right-append [] d t h = h
trim_right-append (c ∷ []) d t h = rw h
trim_right-append (c ∷ c' ∷ s) d t h = rw (trim_right-append (c' ∷ s) d t h)

trim_right-graphic : (s : Str) → All IsGraphic s → trim_right s ≡ s
unfolding trim_right
trim_right-graphic [] h = refl
trim_right-graphic (c ∷ []) ((no_space, _), h) = rw no_space
trim_right-graphic (c ∷ d ∷ s) (_, h) = rw (trim_right-graphic (d ∷ s) h)

split_last_space-graphic : (s : Str) → All IsGraphic s → split_last_space s ≡ none
unfolding split_last_space
split_last_space-graphic [] h = refl
split_last_space-graphic (c ∷ s) ((no_space, _), h) =
    rw (split_last_space-graphic s h) (rw no_space)

split_last_space-append :
    (s t : Str) → All IsGraphic t → split_last_space (s ++ b' ' ∷ t) ≡ some (s, t)
unfolding split_last_space
split_last_space-append [] t h = rw (split_last_space-graphic t h) (unfold isspace in refl)
split_last_space-append (c ∷ s) t h = rw (split_last_space-append s t h)

pub alpha-space : (c : ℕ) → isalpha c ≡ true → isspace c ≡ false
unfolding isalpha islower isupper isspace
alpha-space c h = ground arith

pub graphic-IsPlain : (s : Str) → All IsGraphic s → All IsPlain s
graphic-IsPlain [] h = tt
graphic-IsPlain (c ∷ s) ((no_space, no_nul), h) = (
  ((no_nul, unfold isspace in ground arith), unfold isspace in ground arith),
  graphic-IsPlain s h,
)

pub alpha-IsGraphic : (s : Str) → All (λ c. isalpha c ≡ true) s → All IsGraphic s
alpha-IsGraphic [] h = tt
alpha-IsGraphic (c ∷ s) (p, h) =
    ((alpha-space c p, unfold isalpha islower isupper in ground arith), alpha-IsGraphic s h)

-- The text of a status line.
abbrev pub status_text : Str → Str → Str → Str
status_text method path version = method ++ b' ' ∷ (path ++ b' ' ∷ (codes "HTTP/" ++ version))

http-IsGraphic : (version : Str) → All IsGraphic version → All IsGraphic (codes "HTTP/" ++ version)
http-IsGraphic version h =
    let ok_byte : (c : ℕ) → 32 < c → IsGraphic c =
      λ c l. (unfold isspace in ground arith, omega arith) in
    (
      ok_byte _ (omega arith),
      (
        ok_byte _ (omega arith),
        (ok_byte _ (omega arith), (ok_byte _ (omega arith), (ok_byte _ (omega arith), h))),
      ),
    )

is_version_lem : (version : Str) → is_version (codes "HTTP/" ++ version) ≡ true
unfolding strn_eq
is_version_lem version = refl

path_and_version_lem :
    (path version : Str)
    → All IsGraphic path
    → All IsGraphic version
    → (text : Str) → text ≡ path ++ b' ' ∷ (codes "HTTP/" ++ version)
    → path_and_version (trim_right text) (split_last_space (trim_right text)) ≡ (path, version)
path_and_version_lem path version p v text e =
    let token = codes "HTTP/" ++ version in
    let hv = http-IsGraphic version v in
    let tail : trim_right (b' ' ∷ token) ≡ b' ' ∷ token =
      trim_right-append (b' ' ∷ []) b'H' _ (trim_right-graphic token hv) in
    let trimmed : trim_right text ≡ path ++ b' ' ∷ token =
      ap trim_right e ∙ trim_right-append path b' ' token tail in
    rw trimmed (
      rw (split_last_space-append path token hv)
        (rw (trim_right-graphic path p) (if_true _ _ _ (is_version_lem version))))

not_newline : (c : ℕ) → isspace c ≡ false → c ≢ b'\n'
unfolding isspace
not_newline c h = ground arith

split_path_lem :
    (method path version : Str)
    → path ≢ []
    → All IsGraphic path
    → All IsGraphic version
    → split_path method (skip_while is_gap ((path ++ b' ' ∷ (codes "HTTP/" ++ version)) ++ 0 ∷ []))
      ≡ some (method, path, version)
split_path_lem method [] version n p v = absurd (n refl)
split_path_lem method (d ∷ path) version n ((no_space, no_nul), p) v =
    let tail = d ∷ path ++ b' ' ∷ (codes "HTTP/" ++ version) in
    let skipped : skip_while is_gap (tail ++ 0 ∷ []) ≡ tail ++ 0 ∷ [] =
      unfold skip_while in rw no_space in
    let plain : All IsPlain tail =
      All-append IsPlain (d ∷ path) (b' ' ∷ (codes "HTTP/" ++ version))
        (graphic-IsPlain (d ∷ path) ((no_space, no_nul), p))
        (
          ((omega arith, omega arith), omega arith),
          graphic-IsPlain (codes "HTTP/" ++ version) (http-IsGraphic version v),
        ) in
    let parts =
      path_and_version_lem (d ∷ path) version ((no_space, no_nul), p) v _ (cstr-plain tail plain) in
    let no_end : is_end (tail ++ 0 ∷ []) ≡ false =
      let no_newline = not_newline d no_space in ground arith in
    rw skipped (if_false _ _ _ no_end ∙ ap (λ (q : Str × Str). some (method, q.0, q.1)) parts)

-- A line "METHOD path HTTP/version" is split into its parts.
split_status_line-status_text :
    (method path version : Str) (size : ℕ)
    → method ≢ []
    → All (λ c. isalpha c ≡ true) method
    → path ≢ []
    → All IsGraphic path
    → All IsGraphic version
    → split_status_line (record { bytes = status_text method path version ++ 0 ∷ []; size = size })
      ≡ ok (some (method, path, version))
unfolding split_status_line
split_status_line-status_text [] path version size m alpha n p v = absurd (m refl)
split_status_line-status_text (c ∷ method) [] version size m alpha n p v = absurd (n refl)
split_status_line-status_text (c ∷ method) (d ∷ path) version size m alpha n p v =
    let tail = d ∷ path ++ b' ' ∷ (codes "HTTP/" ++ version) in
    let bytes : status_text (c ∷ method) (d ∷ path) version ++ 0 ∷ []
        ≡ c ∷ method ++ b' ' ∷ (tail ++ 0 ∷ []) =
      append_assoc (c ∷ method) (b' ' ∷ tail) (0 ∷ []) in
    let (taken, skipped) =
      take_while-append isalpha (c ∷ method) b' ' (tail ++ 0 ∷ []) alpha
        (unfold isalpha islower isupper in refl) in
    let start : skip_while isspace (status_text (c ∷ method) (d ∷ path) version ++ 0 ∷ [])
        ≡ c ∷ method ++ b' ' ∷ (tail ++ 0 ∷ []) =
      ap (skip_while isspace) bytes ∙ unfold skip_while in rw (alpha-space c alpha.0) in
    rw start (rw skipped (rw taken (ap ok (split_path_lem (c ∷ method) (d ∷ path) version n p v))))

alpha-is_empty :
    (method : Str)
    → All (λ c. isalpha c ≡ true) method
    → method ≢ []
    → (s : Str) → is_empty ((method ++ s) ++ 0 ∷ []) ≡ false
unfolding isalpha islower isupper
alpha-is_empty [] h m s = absurd (m refl)
alpha-is_empty (c ∷ method) (p, h) m s = ground arith

set_path_and_query-path :
    (request : Request) (path : Str)
    → strchr b'?' path ≡ none
    → set_path_and_query request (some path)
      ≡ ok (record request { path_and_query = some path; path = some (cstr (url_unescape path)) })
unfolding set_path_and_query
set_path_and_query-path request path h = rw h

-- A request whose input begins with a line "METHOD path HTTP/version", the path without a question
-- mark: the line is accepted and consumed, and the request has the method in upper case, the path as
-- it is and decoded, and the version; the method is of letters, the path and the version are
-- without white space, the line is shorter than 2^30 bytes, and there is memory for
-- it.
pub read_status_line_lem :
    (can_allocate : ℕ → Bool) (request : Request) (method path version rest : Str)
    → CanAllocate can_allocate
    → method ≢ []
    → All (λ c. isalpha c ≡ true) method
    → path ≢ []
    → All IsGraphic path
    → All IsGraphic version
    → strchr b'?' path ≡ none
    → FitsBuffer (status_text method path version)
    → request.socket.input ≡ status_text method path version ++ b'\r' ∷ b'\n' ∷ rest
    → read_status_line can_allocate request
      ≡ ok (
        record request {
          method = some (map toupper method);
          path_and_query = some path;
          path = some (cstr (url_unescape path));
          version = some version;
          socket = record { input = rest; eof = false; output = request.socket.output };
        },
        0,
      )
unfolding read_status_line set_method set_version
read_status_line_lem can_allocate request method path version rest memory m alpha n p v no_query
      fits e =
    let text = status_text method path version in
    let plain : All IsPlain text =
      All-append IsPlain method _ (graphic-IsPlain method (alpha-IsGraphic method alpha)) (
        ((omega arith, omega arith), omega arith),
        All-append IsPlain path _ (graphic-IsPlain path p) (
          ((omega arith, omega arith), omega arith),
          graphic-IsPlain (codes "HTTP/" ++ version) (http-IsGraphic version v),
        ),
      ) in
    let (size, er) = read_line-crlf can_allocate request.socket text rest memory plain fits e in
    let parts = split_status_line-status_text method path version size m alpha n p v in
    let accepted =
      set_path_and_query-path
        (record request {
          socket = record { input = rest; eof = false; output = request.socket.output };
          method = some (map toupper method);
        })
        path no_query in
    rw er (if_false _ _ _ (alpha-is_empty method alpha m _) ∙ rw parts (rw accepted))
