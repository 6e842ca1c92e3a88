-- ===== src/Description/Lost.antt =====
-- What becomes of a request for the description of the service if no storage can be made for it.
use redstore.Base.{◌≡◌, refl, ◌∙◌, false, none, some, ok, Str, codes}
use redstore.Request.{Request}
use redstore.Request.Setters.{get_url}
use redstore.Format.{Negotiated, negotiate_format}
use redstore.Platform.{Platform}
use redstore.Program.{Program}
use redstore.Program.Calls.{quiet}
use redstore.Program.Steps.{>>=-step, call-step}
use redstore.Data.{request_url}
use redstore.Description.{StoreInfo, Namespaces}
use redstore.Description.Answer.{asks_html, rdf_description, handle_description_get}

module _ (S : Platform) (ns : Namespaces S) (info : StoreInfo) (request : Request)
    (p : Program S.World) where
  -- The client asks for statements, and no storage can be made to hold them.
  pub record FindsNoStorage : Type 0 where
    pub desc : Negotiated
    pub url : Str
    pub negotiated :
        negotiate_format S.double request S.serializers (some (codes "text/html")) ≡ ok desc
    pub not_html : asks_html desc ≡ ok false
    pub url_known : request.url ≡ some url
    pub no_storage : S.new_storage p.world ≡ quiet none p.world

  request_url-kept :
      (url : Str) → request.url ≡ some url → request_url request p ≡ ok (url, request, p)
  unfolding get_url
  request_url-kept url h = rw h refl

  rdf_description-none :
      FindsNoStorage → rdf_description S ns info request p ≡ ok (none, request, p)
  rdf_description-none h =
      >>=-step request_url _ (request_url-kept h.url h.url_known)
      ∙ call-step S.new_storage _ request p h.no_storage

  -- The handler gives no response, and changes nothing.
  pub handle_description_get-none :
      FindsNoStorage → handle_description_get S ns info request p ≡ ok (none, request, p)
  unfolding handle_description_get
  handle_description_get-none h = rw (h.negotiated, h.not_html) (rdf_description-none h)
