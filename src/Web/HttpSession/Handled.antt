-- ===== src/Web/HttpSession/Handled.antt =====
-- Which requests a session has had handled, and whether they keep the connection alive.
use libiouring_server.Common.{
  ◌≡◌, refl, sym, ap, subst, ◌∙◌, Bool, true, false, not, List, [], ◌∷◌, ◌++◌, append-nil, map,
  if◌then◌else◌, All, All-append,
}
use libiouring_server.Web.Request.{HttpRequest}
use libiouring_server.Web.Response.{Surroundings, Built, handed, send}
use libiouring_server.Web.Context.{RequestContext}
use libiouring_server.Web.HttpParser.Feeding.{IsKept}
use libiouring_server.Web.HttpSession.{
  Act, handles, gives, opens, closes, acts, Mode, Served, did, dispatched, handle_request,
  bad_request_answer, new_context, upgraded_mode, refused,
}
use libiouring_server.WebSocket.Session.{Effect}

-- The requests that were handled, in order.
abbrev pub handled : List Act → List HttpRequest
handled [] = []
handled (handles r ∷ cs) = r ∷ handled cs
handled (gives b ∷ cs) = handled cs
handled (opens ∷ cs) = handled cs
handled (closes ∷ cs) = handled cs
handled (acts e ∷ cs) = handled cs

-- All but the last keep the connection alive.
abbrev pub AllButLast : List HttpRequest → Type 0
AllButLast [] = Unit
AllButLast (r ∷ []) = Unit
AllButLast (r ∷ q ∷ rs) = (r.keep_alive ≡ true) × AllButLast (q ∷ rs)

AllButLast-append :
    (rs : List HttpRequest) (r : HttpRequest)
    → All (λ (q : HttpRequest). q.keep_alive ≡ true) rs
    → AllButLast (rs ++ r ∷ [])
AllButLast-append [] r h = tt
AllButLast-append (q ∷ []) r h = (h.0, tt)
AllButLast-append (q ∷ p ∷ rs) r h = (h.0, AllButLast-append (p ∷ rs) r h.1)

handled-append : (cs bs : List Act) → handled (cs ++ bs) ≡ handled cs ++ handled bs
handled-append [] bs = refl
handled-append (handles r ∷ cs) bs = ap (◌∷◌ r) (handled-append cs bs)
handled-append (gives b ∷ cs) bs = handled-append cs bs
handled-append (opens ∷ cs) bs = handled-append cs bs
handled-append (closes ∷ cs) bs = handled-append cs bs
handled-append (acts e ∷ cs) bs = handled-append cs bs

handled-gives : (bs : List Built) (cs : List Act) → handled (map gives bs ++ cs) ≡ handled cs
handled-gives [] cs = refl
handled-gives (b ∷ bs) cs = handled-gives bs cs

pub handled-acts : (es : List Effect) → handled (map acts es) ≡ []
handled-acts [] = refl
handled-acts (e ∷ es) = handled-acts es

pub handled-refused : (s : Surroundings) → handled (refused s) ≡ []
unfolding refused
handled-refused s = handled-gives (handed (bad_request_answer s)) (closes ∷ [])

handled-closes : (keep : Bool) → handled (if keep then [] else closes ∷ []) ≡ []
handled-closes true = refl
handled-closes false = refl

handled-opens :
    (upgraded : Bool) (cs : List Act)
    → handled ((if upgraded then opens ∷ [] else []) ++ cs) ≡ handled cs
handled-opens true cs = refl
handled-opens false cs = refl

handled-dispatched :
    (s : Surroundings) (upgraded : Bool) (ctx : RequestContext)
    → handled (dispatched s upgraded ctx) ≡ ctx.request ∷ []
unfolding dispatched
handled-dispatched s upgraded ctx = ap (◌∷◌ ctx.request) (
    handled-gives ctx.handed_over _
    ∙ handled-opens upgraded _
    ∙ handled-gives (send s ctx.response).1 _
    ∙ handled-closes ctx.request.keep_alive)

-- Every request but the last that was handled kept the connection alive, and that one too unless
-- the parser has failed.
abbrev pub Keeps : Bool → Served → Type 0
Keeps error x =
    AllButLast (handled x.done)
    × (error ≡ false → All (λ (r : HttpRequest). r.keep_alive ≡ true) (handled x.done))

pub did-Keeps :
    (error : Bool) (more : List Act) (x : Served)
    → handled more ≡ []
    → Keeps error x
    → Keeps error (did more x)
unfolding did
did-Keeps error more x e k =
    subst
      (λ (rs : List HttpRequest).
        AllButLast rs × (error ≡ false → All (λ (r : HttpRequest). r.keep_alive ≡ true) rs))
      (sym
        (handled-append x.done more ∙ ap (◌++◌ (handled x.done)) e ∙ append-nil (handled x.done)))
      k

-- A request is handled, after others that all kept the connection alive.
dispatched-Keeps :
    (s : Surroundings) (upgraded : Bool) (ctx : RequestContext) (x : Served) (mode : Mode)
    → Keeps false x
    → Keeps
        (not ctx.request.keep_alive)
        (did (dispatched s upgraded ctx) (record x { mode = mode }))
unfolding did
dispatched-Keeps s upgraded ctx x mode k =
    subst
      (λ (rs : List HttpRequest).
        AllButLast rs
        × (not ctx.request.keep_alive ≡ false → All (λ (r : HttpRequest). r.keep_alive ≡ true) rs))
      (sym (
        handled-append x.done (dispatched s upgraded ctx)
        ∙ ap (◌++◌ (handled x.done)) (handled-dispatched s upgraded ctx)))
      (
        AllButLast-append (handled x.done) ctx.request (k.1 refl),
        λ e.
            All-append (λ (r : HttpRequest). r.keep_alive ≡ true) (handled x.done)
              (ctx.request ∷ []) (k.1 refl) (alive ctx.request.keep_alive e, tt),
      )
  where
    alive : (b : Bool) → not b ≡ false → b ≡ true
    alive true e = refl
    alive false e = absurd cc

module _ (s : Surroundings) (dispatch : RequestContext → Bool × RequestContext) where
  pub handle_request-Keeps : IsKept (handle_request s dispatch) Keeps
  unfolding handle_request
  handle_request-Keeps = record {
    asked = λ r x k.
        let (upgraded, ctx) = dispatch (new_context r) in
        dispatched-Keeps s upgraded ctx x (upgraded_mode upgraded x.mode) k;
    failing = λ x k. (k.0, λ e. absurd cc);
  }
