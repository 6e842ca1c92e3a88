-- ===== src/Server/Handle/Exchange.antt =====
-- A request and its response on one connection (src/redhttp/server.c).
use redstore.Base.{
  ℕ, ◌<◌, ◌≡◌, refl, sym, ap, ◌∙◌, ◌≢◌, inl, inr, Bool, true, false, not, Option, none, some, List,
  [], ◌∷◌, ◌++◌, map, Bool-cases, if_false, if_true, length, Result, ok, ◌>>=◌, ◌>>◌, >>=-eq-ok,
  ok-injective, Str, codes, cstr, toupper,
}
use redstore.Headers.Fields.{Fields, as_headers}
use redstore.Socket.Lines.{CanAllocate}
use redstore.Url.{url_unescape}
use redstore.Request.{Request, Pointer, null, live, freed, not_null}
use redstore.Request.Setters.{set_path_glob, released, stored_glob, request_free}
use redstore.Request.Read.Whole.{IsPlainRequest, request_text, received, request_read-request_text}
use redstore.Response.{Response}
use redstore.Response.Page.{HasContent}
use redstore.Response.Send.{write, has_headers, response_send}
use redstore.Response.Send.General.{general_fields}
use redstore.Response.Send.Wire.{head_text, response_send-wire}
use redstore.Server.{
  Handler, Server, glob_stem, method_matches, stem_matches, path_matches, match_route,
}
use redstore.Server.Match.{MethodFits, PathFits, IsReadable}
use redstore.Server.Dispatch.{dispatch_request}
use redstore.Server.Dispatch.Routes.{Answers, Passed, same-IsReadable, dispatch_request-first}
use redstore.Server.Handle.{Connection, opened, serve, handle_request}

-- What a match leaves as it is.
abbrev Kept : Request → Request → Type 0
Kept request r =
    ((r.version ≡ request.version) × ((r.server ≡ request.server) × (r.socket ≡ request.socket)))
    × (request.path_glob ≡ null → (p : Pointer) × (released r.path_glob ≡ ok p))

stored_glob-released :
    (old p : Pointer) (glob : Str)
    → released old ≡ ok p
    → old ≡ null
    → (gone : Pointer) × (released (stored_glob p glob) ≡ ok gone)
stored_glob-released null p [] h k = (null, rw⁻¹ (ok-injective h) refl)
stored_glob-released null p (c ∷ glob) h k = (freed, refl)
stored_glob-released (live s) p glob h k = cc k
stored_glob-released freed p glob h k = cc k

set_path_glob-Kept :
    (request r : Request) (glob : Str) → set_path_glob request glob ≡ ok r → Kept request r
unfolding set_path_glob
set_path_glob-Kept request r glob e =
    let (old, eo, e1) = >>=-eq-ok (released request.path_glob) _ e in
    let same = ok-injective e1 in
    (
      (
        sym (ap (λ q. q.version) same),
        (sym (ap (λ q. q.server) same), sym (ap (λ q. q.socket) same)),
      ),
      λ fresh.
          let (gone, eg) = stored_glob-released request.path_glob old glob eo fresh in
          (gone, ap released (sym (ap (λ q. q.path_glob) same)) ∙ eg),
    )

abbrev outcome : Bool → Request → Result (Bool × Request)
outcome b request = ok (b, request)

outcome-Kept :
    (request r' r : Request) (b c : Bool)
    → Kept request r'
    → outcome b r' ≡ outcome c r
    → Kept request r
outcome-Kept request r' r b c ((version, (server, socket)), glob) e =
    let same : r ≡ r' = sym (ap (λ (p : Bool × Request). p.1) (ok-injective e)) in
    (
      (
        ap (λ q. q.version) same ∙ version,
        (ap (λ q. q.server) same ∙ server, ap (λ q. q.socket) same ∙ socket),
      ),
      λ fresh. let (gone, eg) = glob fresh in (gone, ap (λ q. released q.path_glob) same ∙ eg),
    )

same-Kept : (request r : Request) (b c : Bool) → outcome b request ≡ outcome c r → Kept request r
same-Kept request r b c e =
    outcome-Kept request request r b c ((refl, (refl, refl)), λ fresh. (null, rw fresh refl)) e

path_matches-Kept :
    (pattern : Option Str) (request r : Request) (b : Bool)
    → path_matches pattern request ≡ ok (b, r)
    → Kept request r
unfolding path_matches
path_matches-Kept none request r b e = same-Kept request r true b e
path_matches-Kept (some pattern) request r b e =
    let (stem, _, e1) = >>=-eq-ok (glob_stem pattern) _ e in
    let (path, _, e2) = >>=-eq-ok (not_null request.path) _ e1 in
    elim (Bool-cases (stem_matches stem path)) [
      | inl starts ↦
          let e3 = sym (if_true _ _ _ starts) ∙ e2 in
          let (r', es, e4) = >>=-eq-ok (set_path_glob request _) _ e3 in
          outcome-Kept request r' r true b (set_path_glob-Kept request r' _ es) e4
      | inr other ↦ same-Kept request r _ b (sym (if_false _ _ _ other) ∙ e2)
    ]

match_route-Kept :
    {W : Type 0} (it : Handler W) (request r : Request) (b : Bool)
    → match_route it request ≡ ok (b, r)
    → Kept request r
unfolding match_route
match_route-Kept it request r b e =
    let (same, _, e1) = >>=-eq-ok (method_matches it.method request) _ e in
    elim (Bool-cases same) [
      | inl fits ↦ path_matches-Kept it.path request r b (sym (if_true _ _ _ fits) ∙ e1)
      | inr other ↦ same-Kept request r false b (sym (if_false _ _ _ other) ∙ e1)
    ]

-- A response that a handler gives: header fields, a message and some content, not yet sent.
pub record IsReply (response : Response) (fields : Fields) (message content : Str) : Type 0 where
  pub header_fields : response.headers ≡ as_headers fields
  pub message_set : response.status_message ≡ some message
  pub has_content : HasContent response content
  pub unsent : response.headers_sent ≡ false

-- The connection of a client that sends a text.
abbrev pub connection_of : Str → Str × Str → Str × Str → Connection
connection_of input client local = record {
  input = input;
  client = some client;
  local = some local;
}

abbrev output_and : {W : Type 0} → Request → W → List ℕ × W
output_and request world = (request.socket.output, world)

abbrev closed_with : {W : Type 0} → W → Response × Request → Result (List ℕ × W)
closed_with world (response, request) = request_free request >> ok (output_and request world)

response_send-output :
    {W : Type 0} (response : Response) (request : Request) (world : W) (fields : Fields)
    (message content date signature : Str)
    → IsReply response fields message content
    → has_headers request.version ≡ true
    → request.server ≡ some (some signature)
    → request.socket.output ≡ []
    → (p : Pointer) → released request.path_glob ≡ ok p
    → 0 < length date
    → 0 < length signature
    → (response_send response request (some date) >>= closed_with world)
      ≡ ok (
        head_text response.status_code message
              (fields ++ general_fields (length content) date signature)
            ++ content,
        world,
      )
unfolding write request_free
response_send-output response request world fields message content date signature h takes server
      fresh p glob d s =
    let (response', e, _) =
      response_send-wire response request fields message content date signature h.header_fields
        h.message_set h.has_content h.unsent takes server d s in
    rw e (rw glob (rw fresh refl))

-- The request that handle_request reads from.
abbrev accepted : {W : Type 0} → Server W → Str → Str × Str → Str × Str → Request
accepted server input client local = record (opened server (connection_of input client local)) {
  remote_addr = client.0;
  remote_port = client.1;
  server_addr = local.0;
  server_port = local.1;
}

-- The request that has been read, as the routes get it.
abbrev pub read_whole :
    {W : Type 0} → Server W → Str → Str → Str → Fields → Str → Str × Str → Str × Str → Request
read_whole server method path version fields rest client local =
    received (accepted server (request_text method path version fields rest) client local) method
      path version fields rest

handle_request-serve :
    {W : Type 0} (can_allocate : ℕ → Bool) (date : Option Str) (server : Server W) (world : W)
    (input : Str) (client local : Str × Str) (output : Str) (world' : W)
    → serve can_allocate date server (accepted server input client local) world
      ≡ ok (output, world')
    → handle_request can_allocate date server (connection_of input client local) world
      ≡ ok (some output, world')
unfolding handle_request
handle_request-serve can_allocate date server world input client local output world' h = rw h refl

-- A client sends a request and closes or goes on with other bytes. The routes before one that fits it
-- are passed by and leave the request as it was; the handler of that one replies, without a change of
-- the request. The client is sent the reply: its status line, its header fields with Content-Length,
-- Date, Connection and Server, the empty line and the content. Its method is of letters and does not
-- begin with POST, its path has no question mark, its version does not begin with 0.9, its fields are
-- well formed, its lines are shorter than 2^30 bytes, and there is memory for them; its decoded path is not the asterisk; no route up to the one
-- that fits has an empty path; and the server has a signature and knows the date.
pub handle_request-exchange :
    {W : Type 0} (can_allocate : ℕ → Bool) (server : Server W) (world world1 world2 : W)
    (client local : Str × Str) (date signature : Str) (method path version : Str) (fields : Fields)
    (rest : Str) (before after : List (Handler W)) (it : Handler W) (request : Request)
    (reply : Response) (reply_fields : Fields) (message content : Str)
    → server.signature ≡ some signature
    → server.handlers ≡ before ++ it ∷ after
    → 0 < length date
    → 0 < length signature
    → CanAllocate can_allocate
    → IsPlainRequest method path version fields
    → cstr (url_unescape path) ≢ codes "*"
    → request ≡ read_whole server method path version fields rest client local
    → Passed before (map toupper method) (cstr (url_unescape path)) request world request world1
    → it.path ≢ some []
    → MethodFits it.method (map toupper method) × PathFits it.path (cstr (url_unescape path))
    → Answers it request world1 (λ request'. (reply, request', world2))
    → IsReply reply reply_fields message content
    → handle_request can_allocate
        (some date)
        server
        (connection_of (request_text method path version fields rest) client local)
        world
      ≡ ok (
        some (
            head_text reply.status_code message
              (reply_fields ++ general_fields (length content) date signature)
            ++ content),
        world2,
      )
unfolding serve
handle_request-exchange can_allocate server world world1 world2 client local date signature method
      path version fields rest before after it request reply reply_fields message content sig
      handlers d s memory plain not_star whole_request passed non_empty fits answers replies =
    let whole = read_whole server method path version fields rest client local in
    let asked = accepted server (request_text method path version fields rest) client local in
    let read =
      request_read-request_text can_allocate asked method path version fields rest memory plain
        refl in
    let readable : IsReadable whole (map toupper method) (cstr (url_unescape path)) = record {
      method_read = refl;
      path_read = refl;
      no_glob = refl;
    } in
    let readable' : IsReadable request (map toupper method) (cstr (url_unescape path)) =
      same-IsReadable whole request (map toupper method) (cstr (url_unescape path))
        (sym whole_request) readable in
    let (request', matched, _, _, dispatched) =
      dispatch_request-first before after it request request world world1 (λ r. (reply, r, world2))
        (map toupper method) (cstr (url_unescape path)) readable' not_star passed non_empty fits
        answers in
    let ((kept_version, (kept_server, kept_socket)), kept_glob) =
      match_route-Kept it request request' true matched in
    let (gone, glob) = kept_glob (readable'.no_glob) in
    let sent =
      response_send-output reply request' world2 reply_fields message content date signature replies
        (ap has_headers (kept_version ∙ ap (λ q. q.version) whole_request)
          ∙ ap not plain.headers_expected)
        (kept_server ∙ (ap (λ q. q.server) whole_request ∙ ap some sig))
        (ap (λ q. q.output) (kept_socket ∙ ap (λ q. q.socket) whole_request)) gone glob d s in
    let routed : dispatch_request server.handlers whole world ≡ ok (reply, request', world2) =
      ap (λ hs. dispatch_request hs whole world) handlers
      ∙ (ap (λ r. dispatch_request (before ++ it ∷ after) r world) (sym whole_request)
          ∙ dispatched) in
    handle_request-serve can_allocate (some date) server world
      (request_text method path version fields rest) client local _ world2
      (rw read (rw routed sent))
