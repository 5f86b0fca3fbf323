-- ===== src/Web/Middleware.antt =====
-- src/web/Middleware.cpp and src/web/RouteGroup.cpp. A request's context is any type C, what runs on
-- it a function of it; a middleware gets what comes next, and decides whether to run it.
use libiouring_server.Common.{
  ℕ, ◌≡◌, refl, sym, ap, ◌∙◌, List, [], ◌∷◌, ◌++◌, append_assoc, append-nil,
}
use libiouring_server.Web.Method.{index, get, post, put, delete, patch}

abbrev pub Middleware : Type 0 → Type 0
Middleware C = (C → C) → C → C

pub record RouteGroup (C : Type 0) : Type 0 where
  pub prefix : List ℕ
  pub global_middlewares : List (Middleware C)
  pub group_middlewares : List (Middleware C)

-- A call of Router::Route.
pub record Registration (C : Type 0) : Type 0 where
  pub method : ℕ
  pub path : List ℕ
  pub handler : C → C

module _ {C : Type 0} where
  -- Pipeline::Use
  unfoldable pub append_middleware : Middleware C → List (Middleware C) → List (Middleware C)
  append_middleware mw mws = mws ++ mw ∷ []

  -- rbegin to rend
  unfoldable pub reversed : List (Middleware C) → List (Middleware C)
  reversed [] = []
  reversed (mw ∷ mws) = reversed mws ++ mw ∷ []

  -- The loop of Execute: each middleware wraps the chain behind it.
  unfoldable pub build_chain : List (Middleware C) → (C → C) → C → C
  build_chain [] chain = chain
  build_chain (mw ∷ rest) chain = build_chain rest (mw chain)

  unfoldable pub execute : List (Middleware C) → (C → C) → C → C
  execute [] final = final
  execute (mw ∷ mws) final = build_chain (reversed (mw ∷ mws)) final

  unfoldable pub use_middleware : Middleware C → RouteGroup C → RouteGroup C
  use_middleware mw g = record g { group_middlewares = g.group_middlewares ++ mw ∷ [] }

  unfoldable pub nested_group : List ℕ → RouteGroup C → RouteGroup C
  nested_group sub_prefix g = record {
    prefix = g.prefix ++ sub_prefix;
    global_middlewares = g.global_middlewares ++ g.group_middlewares;
    group_middlewares = [];
  }

  -- The two loops that fill a pipeline.
  unfoldable pub fill : List (Middleware C) → List (Middleware C) → List (Middleware C)
  fill pipeline [] = pipeline
  fill pipeline (mw ∷ mws) = fill (append_middleware mw pipeline) mws

  unfoldable pub wrap_with_middleware : RouteGroup C → (C → C) → C → C
  wrap_with_middleware g handler =
      execute (fill (fill [] g.global_middlewares) g.group_middlewares) handler

  unfoldable pub add_route : RouteGroup C → ℕ → List ℕ → (C → C) → Registration C
  add_route g method path handler = record {
    method = method;
    path = g.prefix ++ path;
    handler = wrap_with_middleware g handler;
  }

  unfoldable pub route_get : RouteGroup C → List ℕ → (C → C) → Registration C
  route_get g path handler = add_route g (index get) path handler

  unfoldable pub route_post : RouteGroup C → List ℕ → (C → C) → Registration C
  route_post g path handler = add_route g (index post) path handler

  unfoldable pub route_put : RouteGroup C → List ℕ → (C → C) → Registration C
  route_put g path handler = add_route g (index put) path handler

  unfoldable pub route_delete : RouteGroup C → List ℕ → (C → C) → Registration C
  route_delete g path handler = add_route g (index delete) path handler

  unfoldable pub route_patch : RouteGroup C → List ℕ → (C → C) → Registration C
  route_patch g path handler = add_route g (index patch) path handler

  -- What comes first is outermost.
  unfoldable pub nest : List (Middleware C) → (C → C) → C → C
  nest [] final = final
  nest (mw ∷ mws) final = mw (nest mws final)

  build_chain-append :
      (xs : List (Middleware C)) (mw : Middleware C) (final : C → C)
      → build_chain (xs ++ mw ∷ []) final ≡ mw (build_chain xs final)
  unfolding build_chain
  build_chain-append [] mw final = refl
  build_chain-append (x ∷ xs) mw final = build_chain-append xs mw (x final)

  chain_reversed :
      (mws : List (Middleware C)) (final : C → C)
      → build_chain (reversed mws) final ≡ nest mws final
  unfolding reversed build_chain nest
  chain_reversed [] final = refl
  chain_reversed (mw ∷ mws) final =
      build_chain-append (reversed mws) mw final ∙ ap mw (chain_reversed mws final)

  execute-nest : (mws : List (Middleware C)) (final : C → C) → execute mws final ≡ nest mws final
  unfolding execute nest
  execute-nest [] final = refl
  execute-nest (mw ∷ mws) final = chain_reversed (mw ∷ mws) final

  nest-append :
      (xs ys : List (Middleware C)) (final : C → C)
      → nest (xs ++ ys) final ≡ nest xs (nest ys final)
  unfolding nest
  nest-append [] ys final = refl
  nest-append (x ∷ xs) ys final = ap x (nest-append xs ys final)

  fill-append : (p mws : List (Middleware C)) → fill p mws ≡ p ++ mws
  unfolding fill append_middleware
  fill-append p [] = sym (append-nil p)
  fill-append p (mw ∷ mws) = fill-append (p ++ mw ∷ []) mws ∙ append_assoc p (mw ∷ []) mws

  wrapped :
      (g : RouteGroup C) (handler : C → C)
      → wrap_with_middleware g handler
        ≡ nest g.global_middlewares (nest g.group_middlewares handler)
  unfolding wrap_with_middleware
  wrapped g handler =
      let filled =
        fill-append (fill [] g.global_middlewares) g.group_middlewares
        ∙ ap (λ z. z ++ g.group_middlewares) (fill-append [] g.global_middlewares) in
      ap (λ z. execute z handler) filled
      ∙ execute-nest (g.global_middlewares ++ g.group_middlewares) handler
      ∙ nest-append g.global_middlewares g.group_middlewares handler

  -- A route that is added to a group inside a group, after one more middleware has been given to the
  -- inner one, stands under both prefixes, and runs the outer group's inherited middlewares, then its
  -- own, then the inner one's, each around what follows, and the handler last.
  pub add_route-nested :
      (g : RouteGroup C) (sub path : List ℕ) (mw : Middleware C) (method : ℕ) (handler : C → C)
      → add_route (use_middleware mw (nested_group sub g)) method path handler ≡ record {
        method = method;
        path = (g.prefix ++ sub) ++ path;
        handler = nest g.global_middlewares (nest g.group_middlewares (mw handler));
      }
  unfolding add_route use_middleware nested_group nest
  add_route-nested g sub path mw method handler =
      let all =
        wrapped (use_middleware mw (nested_group sub g)) handler
        ∙ nest-append g.global_middlewares g.group_middlewares (mw handler) in
      ap (λ (h : C → C). record { method = method; path = (g.prefix ++ sub) ++ path; handler = h })
        all
