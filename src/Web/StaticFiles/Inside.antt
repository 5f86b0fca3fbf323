-- ===== src/Web/StaticFiles/Inside.antt =====
-- What StaticFiles answers, and which files it takes.
use libiouring_server.Common.{
  ℕ, ◌≤◌, ◌≡◌, refl, ◌⊎◌, inl, inr, Bool, true, false, not, ◌||◌, List, if◌then◌else◌, if_cases,
  some, Option-cases, length, drop, resize, ltb, arith,
}
use libiouring_server.Common.Maps.{same, text_eq}
use libiouring_server.Common.Texts.{codes, starts_with}
use libiouring_server.Web.Context.{RequestContext, send_response}
use libiouring_server.Web.Request.{get_header}
use libiouring_server.Web.Response.{
  HttpResponse, Surroundings, k_ok, not_modified, forbidden, payload_too_large, set_status, header,
  set_content_type, set_body,
}
use libiouring_server.Web.StaticFiles.{
  Files, StaticFiles, generate_etag, is_get, is_head, indexed, add_modified, add_type, send_file,
  add_headers_and_send, check_etag, check_size, check_resolved, serve, process,
}

-- A regular file that canonical has found, whose path starts with that of the root, and which is not
-- too large, with its bytes.
pub record Served (files : Files) (m : StaticFiles) (body : List ℕ) : Type 0 where
  pub asked : List ℕ
  pub resolved : List ℕ
  pub size : ℕ
  pub mtime : ℕ
  pub content : List ℕ
  pub found : files.canonical asked ≡ some resolved
  pub inside : starts_with m.resolved_root resolved ≡ true
  pub regular : files.is_regular_file resolved ≡ true
  pub measured : files.size_and_mtime resolved ≡ some (size, mtime)
  pub small : size ≤ m.opts.max_file_size
  pub opened : files.read resolved ≡ some content
  pub whole : body ≡ resize size 0 content

-- Two responses that differ in headers and in the type of the content at most.
abbrev pub SameButHeaders : HttpResponse → HttpResponse → Type 0
SameButHeaders r q =
    (r.status ≡ q.status)
    × (r.body ≡ q.body)
    × (r.keep_alive ≡ q.keep_alive)
    × (r.sent ≡ q.sent)
    × (r.bound ≡ q.bound)

-- What a response says: nothing new with 304, or with 200 to a HEAD, one of two messages, or a file.
abbrev pub Says : Files → StaticFiles → RequestContext → HttpResponse → Type 0
Says files m ctx r =
    ((r.status ≡ not_modified) × (r.body ≡ ctx.response.body))
    ⊎ (((r.status ≡ k_ok) × (is_head ctx.request.method ≡ true) × (r.body ≡ ctx.response.body))
        ⊎ (((r.status ≡ forbidden) × (r.body ≡ codes "Forbidden"))
            ⊎ (((r.status ≡ payload_too_large) × (r.body ≡ codes "File Too Large"))
                ⊎ ((r.status ≡ k_ok) × Served files m r.body))))

-- What comes next has run on the context, of whose response at most headers and the type of the
-- content have changed; or exactly one response has been sent on the context.
abbrev pub Answer :
    Surroundings
    → Files
    → StaticFiles
    → (RequestContext → RequestContext)
    → RequestContext
    → RequestContext
    → Type 0
Answer s files m next ctx answer =
    ((r : HttpResponse) × SameButHeaders r ctx.response
      × (answer ≡ next (record ctx { response = r })))
    ⊎ ((r : HttpResponse) × (answer ≡ send_response s r ctx)
        × (r.keep_alive ≡ ctx.response.keep_alive)
        × (r.sent ≡ ctx.response.sent)
        × (r.bound ≡ ctx.response.bound)
        × Says files m ctx r)

module _ (s : Surroundings) (files : Files) (m : StaticFiles) where
  -- A file that can be sent, but for its bytes.
  record Sendable (resolved : List ℕ) (size mtime : ℕ) : Type 0 where
    asked : List ℕ
    found : files.canonical asked ≡ some resolved
    inside : starts_with m.resolved_root resolved ≡ true
    regular : files.is_regular_file resolved ≡ true
    measured : files.size_and_mtime resolved ≡ some (size, mtime)
    small : size ≤ m.opts.max_file_size

  module _ (next : RequestContext → RequestContext) (ctx : RequestContext) where
    abbrev Answered : RequestContext → Type 0
    Answered answer = Answer s files m next ctx answer

    -- The context on the way, with a response that has got headers.
    abbrev with : HttpResponse → RequestContext
    with r = record ctx { response = r }

    abbrev Like : HttpResponse → Type 0
    Like r = SameButHeaders r ctx.response

    send_file-Answer :
        (resolved : List ℕ) (size mtime : ℕ) (r : HttpResponse)
        → Sendable resolved size mtime
        → Like r
        → Answered (send_file s files m resolved size next (with r))
    unfolding send_file header set_status set_body send_response
    send_file-Answer resolved size mtime r f h =
        if_cases Answered (is_head ctx.request.method)
          (λ e. inr (_, refl, h.2, h.3, h.4, inr (inl (refl, e, h.1))))
          (λ e. elim (Option-cases (files.read resolved)) [
            | inl n ↦ rw n (inl (r, h, refl))
            | inr (content, n) ↦ rw n (
                inr (
                  set_body (resize size 0 content) (set_status k_ok r),
                  refl,
                  h.2,
                  h.3,
                  h.4,
                  inr (
                      inr (
                        inr (
                          inr (
                            refl,
                            record {
                              asked = f.asked;
                              resolved = resolved;
                              size = size;
                              mtime = mtime;
                              content = content;
                              found = f.found;
                              inside = f.inside;
                              regular = f.regular;
                              measured = f.measured;
                              small = f.small;
                              opened = n;
                              whole = refl;
                            },
                          )))),
                ))
          ])

    add_headers-Answer :
        (resolved : List ℕ) (size mtime : ℕ) (r : HttpResponse)
        → Sendable resolved size mtime
        → Like r
        → Answered (add_headers_and_send s files m resolved size mtime next (with r))
    unfolding add_headers_and_send add_type add_modified header set_content_type
    add_headers-Answer resolved size mtime r f h = typed m.opts.enable_last_modified
      where
        typed :
            (b : Bool)
            → Answered (
                send_file s files m resolved size next (
                  add_type s files m resolved (
                    if b
                    then record (with r) {
                      response = header (codes "Last-Modified") (files.time_text mtime) r;
                    }
                    else with r)))
        typed true = send_file-Answer resolved size mtime _ f h
        typed false = send_file-Answer resolved size mtime _ f h

    check_etag-Answer :
        (resolved : List ℕ) (size mtime : ℕ) (r : HttpResponse)
        → Sendable resolved size mtime
        → Like r
        → Answered (check_etag s files m resolved size mtime next (with r))
    unfolding check_etag header set_status send_response
    check_etag-Answer resolved size mtime r f h =
        if_cases Answered m.opts.enable_etag
          (λ e.
            if_cases Answered
              (same (get_header (codes "If-None-Match") ctx.request) (generate_etag size mtime))
              (λ g. inr (_, refl, h.2, h.3, h.4, inl (refl, h.1)))
              (λ g. add_headers-Answer resolved size mtime _ f h))
          (λ e. add_headers-Answer resolved size mtime r f h)

    unchanged : Like ctx.response
    unchanged = (refl, refl, refl, refl, refl)

    check_resolved-Answer :
        (asked resolved : List ℕ)
        → files.canonical asked ≡ some resolved
        → Answered (check_resolved s files m resolved next ctx)
    unfolding check_resolved check_size set_body set_status set_content_type
    check_resolved-Answer asked resolved found =
        if_cases Answered (not (starts_with m.resolved_root resolved))
          (λ e. inr (_, refl, refl, refl, refl, inr (inr (inl (refl, refl)))))
          (λ e.
            if_cases Answered (not (files.is_regular_file resolved)) (λ g. inl (_, unchanged, refl))
              (λ g. elim (Option-cases (files.size_and_mtime resolved)) [
                | inl n ↦ rw n (inl (_, unchanged, refl))
                | inr ((size, mtime), n) ↦ rw n (
                    if_cases Answered (ltb m.opts.max_file_size size)
                      (λ k. inr (_, refl, refl, refl, refl, inr (inr (inr (inl (refl, refl))))))
                      (λ k.
                        check_etag-Answer resolved size mtime ctx.response
                          (record {
                            asked = asked;
                            found = found;
                            inside = holds _ e;
                            regular = holds _ g;
                            measured = n;
                            small = ground arith;
                          })
                          unchanged))
              ]))
      where
        holds : (b : Bool) → not b ≡ false → b ≡ true
        holds true h = refl
        holds false h = absurd cc

    serve-Answer : (path : List ℕ) → Answered (serve s files m path next ctx)
    unfolding serve
    serve-Answer path = elim (Option-cases (indexed s files m path)) [
      | inl n ↦ rw (serve, n) (inl (_, unchanged, refl))
      | inr (asked, n) ↦ elim (Option-cases (files.canonical asked)) [
        | inl k ↦ rw (serve, n, k) (inl (_, unchanged, refl))
        | inr (resolved, k) ↦ rw (serve, n, k) (check_resolved-Answer asked resolved k)
      ]
    ]

    -- Whatever the path of the request, and whatever the file system answers: StaticFiles runs what
    -- comes next on the context as it came, of whose response at most headers and the type of the
    -- content have changed; or it sends exactly one response on that context and runs nothing: 304,
    -- or 200 to a HEAD, with the body that it found, 403 or 413 with a fixed message, or 200 with the
    -- bytes of a regular file whose canonical path starts with the text of the canonical root, no
    -- larger than the limit, as many of them as stat has told.
    pub process-Answer : Answer s files m next ctx (process s files m next ctx)
    unfolding process
    process-Answer =
        if_cases Answered (not (is_get ctx.request.method || is_head ctx.request.method))
          (λ e. inl (_, unchanged, refl))
          (λ e.
            if_cases Answered (not (starts_with m.opts.prefix ctx.request.path))
              (λ g. inl (_, unchanged, refl))
              (λ g.
                serve-Answer
                  (files.join m.resolved_root (drop (length m.opts.prefix) ctx.request.path))))
