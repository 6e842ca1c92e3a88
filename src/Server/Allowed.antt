-- ===== src/Server/Allowed.antt =====
-- `check_allowed_responses` of src/redhttp/server.c: the methods that a path allows.
pub mod Methods
pub mod Brought
pub mod Listing
pub mod Text
use redstore.Base.{
  ℕ, zero, suc, ◌+◌, ◌-◌, ◌/◌, ◌<◌, Bool, true, false, ◌&&◌, Option, none, some, List, [], ◌∷◌,
  ◌++◌, ltb, ◌==◌, if◌then◌else◌, length, take, bad_read, null_pointer, Result, ok, fault, ◌>>=◌,
  ◌>>◌, Str, codes, str_eq,
}
use redstore.Socket.{bufsiz}
use redstore.Response.{Response, response_new_empty, response_new_error_page, add_header}
use redstore.Server.{Handler, HandlerFunc}

-- The array of methods; `none` is NULL.
abbrev pub Slots : Type 0
Slots = List (Option Str)

abbrev max_allowed_methods : ℕ
max_allowed_methods = 50

-- The array with the result: whether the method was added.
unfoldable pub add_allowed_method : Slots → Str → Slots × Bool
add_allowed_method [] method = ([], false)
add_allowed_method (none ∷ next) method = (some method ∷ next, true)
add_allowed_method (some known ∷ next) method =
    let (next', added) = add_allowed_method next method in
    if str_eq known method then (some known ∷ next, false) else (some known ∷ next', added)

abbrev empty_slots : ℕ → Slots
empty_slots zero = []
empty_slots (suc n) = none ∷ empty_slots n

abbrev pub initial_slots : Slots
initial_slots = some (codes "OPTIONS") ∷ empty_slots 49

-- A method with what it brings: HEAD, the first time that GET is added.
unfoldable pub add_with_head : Slots → Str → Slots
unfolding add_allowed_method
add_with_head slots method =
    let (slots', added) = add_allowed_method slots method in
    if added && str_eq (codes "GET") method
    then (add_allowed_method slots' (codes "HEAD")).0
    else slots'

abbrev pub is_path : Option Str → Str → Bool
is_path none path = false
is_path (some own) path = str_eq own path

-- `path == NULL || (it->path && strcmp(it->path, path) == 0)`
abbrev pub serves : {W : Type 0} → Handler W → Option Str → Bool
serves it none = true
serves it (some path) = is_path it.path path

-- One handler of the loop.
unfoldable pub add_methods_of : {W : Type 0} → Slots → Handler W → Option Str → Slots
unfolding add_with_head
add_methods_of slots it path = elim it.method [
  | none ↦ slots
  | some method ↦ if serves it path then add_with_head slots method else slots
]

unfoldable pub allowed_slots : {W : Type 0} → Slots → List (Handler W) → Option Str → Slots
unfolding add_methods_of
allowed_slots slots [] path = slots
allowed_slots slots (it ∷ next) path = allowed_slots (add_methods_of slots it path) next path

-- The loop that joins the methods, up to the first NULL and within BUFSIZ.
unfoldable pub join_methods : Str → Slots → Str
join_methods allow_str [] = allow_str
join_methods allow_str (none ∷ next) = allow_str
join_methods allow_str (some method ∷ next) =
    join_methods
      (if ltb (length allow_str + length method + 2) bufsiz
        then allow_str ++ b',' ∷ method
        else allow_str)
      next

abbrev join_all : Slots → Result Str
join_all [] = fault bad_read
join_all (none ∷ next) = fault null_pointer
join_all (some first ∷ next) = ok (join_methods first next)

unfoldable pub allow_text : {W : Type 0} → List (Handler W) → Option Str → Result Str
unfolding allowed_slots
allow_text handlers path = join_all (allowed_slots initial_slots handlers path)

-- The page's message, cut off by snprintf at BUFSIZ - 1 bytes.
unfoldable pub allow_message : Str → Str
allow_message allow_str =
    take (bufsiz - 1)
      (codes "Please use one of the allowed methods:<br /><code>" ++ (allow_str ++ codes "</code>"))

unfoldable pub check_allowed_responses :
    {W : Type 0} → ℕ → List (Handler W) → Option Str → Result Response
check_allowed_responses status handlers path = do
  allow_str ← allow_text handlers path
  response ←
      (if status == 200
        then response_new_empty 200
        else response_new_error_page status (some (allow_message allow_str)))
  add_header response (codes "Allow") (some allow_str)
