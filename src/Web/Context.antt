-- ===== src/Web/Context.antt =====
-- A request on its way through the middlewares: RequestContext of include/serverweb/Router.h, with
-- what Send has handed to the session, and whether an exception has left the chain.
use libiouring_server.Common.{ℕ, Bool, List, ◌++◌}
use libiouring_server.Web.Request.{HttpRequest}
use libiouring_server.Web.Response.{
  unauthorized, HttpResponse, Surroundings, set_status, json, mark_sent, Built, send,
}

pub record RequestContext : Type 0 where
  pub request : HttpRequest
  pub response : HttpResponse
  pub handed_over : List Built
  pub thrown : Bool

-- ctx.response.Send()
unfoldable pub send_response : Surroundings → HttpResponse → RequestContext → RequestContext
send_response s r ctx =
    let (after, out) = send s r in
    record ctx { response = after; handed_over = ctx.handed_over ++ out }

unfoldable pub defer_response : RequestContext → RequestContext
defer_response ctx = record ctx { response = mark_sent ctx.response }

-- ctx.response.Status(kUnauthorized).Json(text).Send()
unfoldable pub refuse : Surroundings → List ℕ → RequestContext → RequestContext
refuse s text ctx = send_response s (json text (set_status unauthorized ctx.response)) ctx
