-- ===== src/Update/Parsing.antt =====
-- What is done with the content of a request that can be parsed (src/update.c).
use redstore.Base.{
  ℕ, ◌<◌, ◌≡◌, refl, ◌∙◌, true, false, not, Option, none, some, List, arith, leb, ◌==◌,
  if◌then◌else◌, length, take, drop, ok, Str, codes,
}
use redstore.Socket.{Socket, fread}
use redstore.Request.{Request, get_argument, get_header}
use redstore.Request.Read.{atoi, size_of_int}
use redstore.Response.{Response}
use redstore.Platform.{log_error, Platform}
use redstore.Program.{Action, Program, call, log_all}
use redstore.Program.Calls.{quiet, stream_of}
use redstore.Program.Steps.{>>=-step, call-step}
use redstore.Program.Monad.{◌>>=◌}
use redstore.Update.{
  message, parse_guessed, find_base, base_of_graph, read_socket, StreamProcessor,
  parse_data_from_request_body, parse_data_from_buffer,
}

module _ (S : Platform) where
  open S use {World, Node, Uri, Statement, Parser}

  -- The content of the request is there in full, and the libraries parse it, on the URI of the
  -- graph, to statements, without a message.
  pub record CleanBody (request : Request) (world : World) (node : Node) (size : ℕ)
      (xs : List Statement) : Type 0 where
    pub size_text : Str
    pub parser_name : Str
    pub graph_uri : Uri
    pub base_uri : Uri
    pub parser : Parser
    pub has_length : get_header request (codes "Content-Length") ≡ some size_text
    pub size_read : size_of_int (atoi size_text) ≡ size
    pub some_content : 0 < size
    pub allocated : S.can_allocate size ≡ true
    pub is_complete : length (take size request.socket.input) ≡ size
    pub guessed :
        S.parser_guess_name
          (get_header request (codes "Content-Type"))
          (take size request.socket.input)
          world
        ≡ quiet (some parser_name) world
    pub no_base : get_argument request (codes "base-uri") ≡ none
    pub named : S.node_get_uri node ≡ some graph_uri
    pub copied : S.new_uri_from_uri graph_uri world ≡ quiet (some base_uri) world
    pub parser_made : S.new_parser parser_name world ≡ quiet (some parser) world
    pub parsed :
        S.parse_string parser (take size request.socket.input) (some base_uri) world
        ≡ quiet (some (stream_of xs)) world

  -- The request after its content has been read.
  abbrev pub without_content : ℕ → Request → Request
  without_content n request = record request {
    socket = record request.socket { input = drop n request.socket.input };
  }

  fread-all :
      (n : ℕ) (sock : Socket)
      → length (take n sock.input) ≡ n
      → fread n n sock ≡ ok (take n sock.input, record sock { input = drop n sock.input })
  unfolding fread
  fread-all n sock h = rw h (ground arith)

  read_socket-all :
      (n : ℕ) (request : Request) (p : Program World)
      → length (take n request.socket.input) ≡ n
      → read_socket n request p ≡ ok (take n request.socket.input, without_content n request, p)
  read_socket-all n request p h = rw (fread-all n request.socket h, read_socket) refl

  module _ (request : Request) (p : Program World) (node : Node) (size : ℕ) (xs : List Statement)
      (stream_proc : StreamProcessor S) (body : CleanBody request p.world node size xs) where
    abbrev buffer : List ℕ
    buffer = take size request.socket.input

    abbrev rest : Request
    rest = without_content size request

    parse_data_from_buffer-clean :
        parse_data_from_buffer S buffer body.parser_name (some node) stream_proc rest p
        ≡ stream_proc (stream_of xs) (some node) rest p
    unfolding parse_data_from_buffer log_all
    parse_data_from_buffer-clean =
        rw (body.no_base, find_base)
          (rw (body.named, base_of_graph)
            (rw body.copied (rw body.parser_made (rw body.parsed refl))))

    abbrev guessing : Action World (Option Response)
    guessing =
        call (S.parser_guess_name (get_header request (codes "Content-Type")) buffer)
        >>= parse_guessed S buffer (some node) stream_proc

    abbrev checked : Action World (Option Response)
    checked =
        if not (length buffer == size)
        then message S log_error 500 (codes "Error reading content from client.")
        else guessing

    checked-clean : checked rest p ≡ stream_proc (stream_of xs) (some node) rest p
    checked-clean =
        let whole : (length buffer == size) ≡ true = ground (arith, body.is_complete) in
        rw whole (
          call-step (S.parser_guess_name (get_header request (codes "Content-Type")) buffer)
            (parse_guessed S buffer (some node) stream_proc) rest p body.guessed
          ∙ parse_data_from_buffer-clean)

    -- A content that can be parsed is read, and its statements are given to the processor.
    pub parse_data_from_request_body_lem :
        parse_data_from_request_body S (some node) stream_proc request p
        ≡ stream_proc (stream_of xs) (some node) rest p
    unfolding parse_data_from_request_body
    parse_data_from_request_body_lem =
        let sized : leb size 0 ≡ false = ground (arith, body.some_content) in
        rw (body.has_length, body.size_read)
          (rw (sized, body.allocated)
            (>>=-step (read_socket size) _ (read_socket-all size request p body.is_complete)
              ∙ checked-clean))
