-- ===== src/Main/Whole.antt =====
-- A request for a graph, from the routes of src/redstore.c to the storage.
use redstore.Base.{ℕ, ◌≡◌, refl, ◌↔◌, Option, none, some, List, ok, Str, codes}
use redstore.Request.{Request, null}
use redstore.Response.{Response}
use redstore.Format.{is_html_format}
use redstore.Server.Dispatch.{dispatch_request}
use redstore.Platform.{Platform}
use redstore.Program.{Program, Action}
use redstore.Pages.Message.{message_response}
use redstore.Update.Parsing.{CleanBody, without_content}
use redstore.Data.Store.{IsStore, Replaced}
use redstore.Data.Contents.{NamesGraph, with_world, added_text, handle_data_put_lem, Replaced-iff}
use redstore.Main.Routes.{table, begun}
use redstore.Main.DataRoutes.{put, data_path, globbed, dispatch_request-data}

module _ (S : Platform) (store : IsStore S)
    (handle_description_get : Action S.World (Option Response)) where
  open S use {World, Node, Statement}
  open store use {Holds, added, cleared}

  abbrev loaded_response : Str → Node → Response
  loaded_response format_str node =
      message_response S (is_html_format format_str) 200 (added_text S store node) none

  -- PUT of a path that begins with "/data", for a named graph and with a content that is parsed
  -- without a message: whatever the error buffer held, the routes lead to a 200, the graph holds
  -- the statements of the content and no others, and no other graph is changed. No handler has set
  -- a glob yet, the request accepts a format of the messages, and the store keeps its laws.
  pub dispatch_request-replaces :
      (request request' : Request) (p : Program World) (rest : Str) (node : Node) (format_str : Str)
      (size : ℕ) (xs : List Statement)
      → request.method ≡ some (codes "PUT")
      → request.path ≡ some (data_path rest)
      → request.path_glob ≡ null
      → NamesGraph S store
          (globbed request rest)
          request'
          (begun S handle_description_get p)
          node
          format_str
      → CleanBody S request' p.world node size xs
      → (w : World) × (dispatch_request (table S handle_description_get) request p
          ≡ ok (
            loaded_response format_str node,
            without_content S size request',
            with_world S store (begun S handle_description_get p) w,
          ))
        × ((m : Node) (s : Statement) → Holds w m s ↔ Replaced S store node xs p.world m s)
  dispatch_request-replaces request request' p rest node format_str size xs method_read read fresh
        names body =
      let after = begun S handle_description_get p in
      let w = added node xs (cleared node p.world) in
      (
        w,
        dispatch_request-data S handle_description_get request rest read put p
            (loaded_response format_str node) (without_content S size request')
            (with_world S store after w) method_read fresh
            (handle_data_put_lem S store (globbed request rest) request' after node format_str names
              size xs body refl),
        λ m s. Replaced-iff S store node xs p.world m s,
      )
