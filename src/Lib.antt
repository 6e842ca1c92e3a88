-- ===== src/Lib.antt =====
-- RedStore is an RDF store with an HTTP interface. Its HTTP library, src/redhttp, reads a request from
-- a connection, finds the handler for it, and sends the handler's response; the program in src
-- gives the handlers, which keep their data with librdf and its libraries raptor and rasqal. The files
-- here model the HTTP library and the program, as functions of their state.
--
-- Base            Results that may be faults, C strings and their library functions, integers.
-- Url             src/redhttp/url.c: url_unescape and url_escape. Url.RoundTrip, Url.Bounds.
-- Headers         src/redhttp/headers.c: a list of headers, which also holds the arguments of a request.
--                 headers_add, headers_set, headers_get and so on are redhttp_headers_add and so on.
--                 Headers.Lookup, Headers.Lines; Headers.Fields has the lines of a list of fields.
-- Negotiate       src/redhttp/negotiate.c: the list of types with their qualities. Negotiate.Double has
--                 the parser, which uses `double`. Negotiate.Sort, Negotiate.Choose, Negotiate.Parse,
--                 Negotiate.Format.
-- Socket          the streams of a connection, and redhttp_request_read_line of src/redhttp/request.c.
--                 Socket.Lines, Socket.Crlf; Socket.Overflow has the lines that are too long.
-- Request         src/redhttp/request.c. Request.Arguments is redhttp_request_parse_arguments,
--                 Request.Setters the setters with more to do than to store, Request.StatusLine is
--                 redhttp_request_read_status_line, and Request.Read is redhttp_request_read, of
--                 which Request.Read.Whole has the whole.
-- Response        src/redhttp/response.c. Response.Send is redhttp_response_send.
-- Server          src/redhttp/server.c: the handlers and match_route. Server.Allowed makes the Allow
--                 header, Server.Dispatch is redhttp_server_dispatch_request, of which Server.Dispatch.Routes
--                 has the routes that answer and Server.Dispatch.Served the status where none does, and Server.Handle is
--                 redhttp_server_handle_request, which calls all of the above;
--                 Server.Handle.Exchange follows one request to its response. Server.Listen is
--                 redhttp_server_listen and redhttp_server_run.
-- GenId           src/genid.c: redstore_genid.
-- Format          src/utils.c: redstore_negotiate_format, redstore_negotiate_string and what they use.
--                 Format.Choice.
-- Platform        What is not in the sources: the operations of librdf, raptor and rasqal on a state of
--                 theirs, the build and the system. Platform.Example is a small store of quads.
-- Program         The variables of src/globals.c, redstore_log of src/utils.c, and redland_log_handler
--                 of src/redstore.c, which gathers the errors that the libraries log. An error buffer without
--                 a byte has no string, as raptor documents it. Program.Monad
--                 has the sequence of actions of a handler, Program.Calls what calls log.
-- Pages           src/pages.c: pages and messages. Pages.Forms has the home page and the forms.
-- Formatters      src/formatters.c: how graphs and results are sent.
-- Update          src/update.c: how statements are parsed and put into a graph or removed from it;
--                 Update.Handlers has the handlers of /load, /insert and /delete.
-- Data            src/data.c: which graph a request names. Data.Handlers has the handlers of /data;
--                 Data.Store states what is relied on of a store, and Data.Contents, Data.Removal,
--                 Data.Repeat and Data.Created say what the handlers do to its graphs, Data.Sent what
--                 is sent of one.
-- Graphs          src/graphs.c: the list of graphs, as text and as HTML.
-- Query           src/query.c: the handlers of /query and /sparql.
-- Description     src/description.c: the description of the service. Description.Parts has its statements,
--                 Description.Html its page, Description.Answer the handler, and Description.Lost and
--                 Main.Lost say what becomes of a request that finds no storage for it.
-- Images          src/images.c: the icon.
-- Main            src/redstore.c: the handlers that every request passes and the table of routes.
--                 Main.Options has the options of the command line, Main.Setup the store that is opened,
--                 Main.Start the start and the main loop. Main.Whole follows a PUT from the table of routes to the store.
--
-- A text is the list of its bytes. The structs of src/redhttp/redhttp_private.h are records, and their
-- linked lists are lists; what a function changes is an argument and a part of its result. A result is
-- `ok`, or a fault where the C code has an assertion that fails or behaviour that C leaves undefined:
-- a read or a write outside of an object, a null pointer or a freed pointer that is used, an `int` that
-- overflows, a format of printf that asks for an argument that is not there.
-- Assertions are enabled, `char` is signed, `int` has 32 bits, `long` and `size_t` have 64, BUFSIZ is
-- 8192, the locale is "C", and the functions of <ctype.h> take every char. Pages and other texts
-- but the lines that are read are shorter than 2^30 bytes, so that an `int` holds their length. Memory can be allocated,
-- but for the line and the content of a request, where the client chooses the size: there can_allocate
-- says which sizes can be had.
--
-- Parameters stand for what is not in the sources: the operations on `double` with strtod, whose
-- rounding to tenths is a hypothesis where it is needed; the text of the date; the value of random();
-- what getnameinfo says of a connection; the results of getaddrinfo, socket, bind, listen and select;
-- in Server and Main, the state that the handlers share, and in the table of routes the handler of the
-- description. A Platform is the parameter of the program: each of its operations takes the state of
-- the libraries, and gives a value, the new state and the messages that it logs, in order. A
-- pointer that may be NULL is an option. A stream or an iterator is the list of what it will
-- give, with the messages of each step, as if what it will give is settled when it is made; it
-- is finite. What theorems rely on of the store is the record IsStore: adding adds, removing a
-- context empties it, and a context exists if it holds a statement. The prefixes that a serialiser
-- is given are left out, as its output is a parameter. Fatal messages end the
-- program by the fault process_exit where the code calls exit. What is printed is left out,
-- but for the format that a logged message is.
--
-- Loops are by recursion on the list or the text that they go through. The loop over the arguments has
-- as fuel one more than the length of the text, of which each round takes a byte; the loop over the
-- header lines one more than the length of the input, of which each line takes a byte; the sort
-- makes one pass less than the list has elements, as the code does; the loop of
-- redstore_genid has its nine rounds; a number n has at most n + 1 digits. The search for a new name
-- has its ten attempts, and the main loop goes over the list of rounds that it is given.
--
-- Not modelled: the functions that only release memory or hand out one field; the text of usage; at
-- the start, librdf_new_world; description_init and redhttp_server_listen are modelled, but are steps
-- that the start is given; src/redhttp/test_redhttpd.c, which is an example; the Macintosh front end; signals that come while a request is handled, which are delivered
-- before the next round.
pub mod Base
pub mod Data
pub mod Description
pub mod Format
pub mod Formatters
pub mod GenId
pub mod Graphs
pub mod Headers
pub mod Images
pub mod Main
pub mod Negotiate
pub mod Pages
pub mod Platform
pub mod Program
pub mod Query
pub mod Request
pub mod Response
pub mod Server
pub mod Socket
pub mod Update
pub mod Url
