-- ===== src/Web/Upstream/Pool.antt =====
-- src/web/UpstreamPool.cpp. Each request gets a session of its own, whose callbacks count it out
-- behind the caller's. The mutex makes the counts a sequence; active_count_ is a std::size_t. Nobody
-- else has the sessions, so that none of them is closed from outside.
use libiouring_server.Common.{
  ℕ, zero, suc, ◌+◌, ◌-◌, ◌%◌, ◌^◌, ◌≤◌, ◌<◌, ◌≡◌, refl, ap, inl, inr, Bool, List, [], ◌∷◌, ◌++◌,
  All, All-append, length, length-append, arith,
}
use libiouring_server.Common.Word.{sub64, sub64_lem}
use libiouring_server.Web.Upstream.Phases.{in_flight, Phase}
use libiouring_server.Web.Upstream.Steps.{step-Phase, step_idle, connect-Phase}
use libiouring_server.Web.Upstream.Session.{UpstreamSession, new_session, connect, Completion, step}

pub record UpstreamPool : Type 0 where
  pub active_count : ℕ
  pub sessions : List UpstreamSession

abbrev pub empty_pool : UpstreamPool
empty_pool = record { active_count = 0; sessions = [] }

-- Each report between the two states of a session has counted down once.
unfoldable pub counted : UpstreamSession → UpstreamSession → ℕ → ℕ
counted before after n = sub64 n (length after.reports - length before.reports)

-- What Connect meets, and the request's bytes.
pub record Attempt : Type 0 where
  pub resolves : Bool
  pub makes_socket : Bool
  pub room : Bool
  pub request_bytes : List ℕ

unfoldable pub attempted : Attempt → UpstreamSession
attempted a = connect a.resolves a.makes_socket a.room a.request_bytes new_session

unfoldable pub forward : Attempt → UpstreamPool → UpstreamPool
forward a pool = record {
  active_count = counted new_session (attempted a) ((pool.active_count + 1) % 2 ^ 64);
  sessions = pool.sessions ++ attempted a ∷ [];
}

-- A completion for the session in a place; for no session, if there is none.
unfoldable pub complete : ℕ → Completion → ℕ → List UpstreamSession → UpstreamPool
complete i c n [] = record { active_count = n; sessions = [] }
complete zero c n (u ∷ us) = record {
  active_count = counted u (step c u) n;
  sessions = step c u ∷ us;
}
complete (suc i) c n (u ∷ us) =
    let rest = complete i c n us in record rest { sessions = u ∷ rest.sessions }

pub data Event : Type 0 where
  forwards : Attempt → Event
  completes : ℕ → Completion → Event

unfoldable pub happen : Event → UpstreamPool → UpstreamPool
happen (forwards a) pool = forward a pool
happen (completes i c) pool = complete i c pool.active_count pool.sessions

unfoldable pub run : List Event → UpstreamPool → UpstreamPool
run [] pool = pool
run (e ∷ es) pool = run es (happen e pool)

-- The requests with the kernel, of all sessions.
abbrev pub all_in_flight : List UpstreamSession → ℕ
all_in_flight [] = 0
all_in_flight (u ∷ us) = in_flight u + all_in_flight us

abbrev reported : List UpstreamSession → ℕ
reported [] = 0
reported (u ∷ us) = length u.reports + reported us

record Counts (pool : UpstreamPool) : Type 0 where
  phases : All Phase pool.sessions
  answered : pool.active_count + reported pool.sessions ≡ length pool.sessions

Phase-one : (u : UpstreamSession) → Phase u → in_flight u + length u.reports ≡ 1
Phase-one u (inl h) = omega (arith, h.one_request, ap length h.silent.nothing)
Phase-one u (inr h) = omega (arith, h.no_request, h.one_report)

-- A session never takes a report back.
reports_grow :
    (c : Completion) (u : UpstreamSession) → Phase u → length u.reports ≤ length (step c u).reports
reports_grow c u (inl b) = omega (arith, ap length b.silent.nothing)
reports_grow c u (inr d) =
    omega (arith, ap (λ (z : UpstreamSession). length z.reports) (step_idle c u d.no_request))

at_most_one : (u : UpstreamSession) → Phase u → length u.reports ≤ 1
at_most_one u h = omega (arith, Phase-one u h)

reported-append :
    (us : List UpstreamSession) (u : UpstreamSession)
    → reported (us ++ u ∷ []) ≡ reported us + length u.reports
reported-append [] u = omega arith
reported-append (v ∷ us) u = omega (arith, reported-append us u)

reported_le : (us : List UpstreamSession) → All Phase us → reported us ≤ length us
reported_le [] h = omega arith
reported_le (u ∷ us) h = omega (arith, reported_le us h.1, at_most_one u h.0)

attempted-Phase : (a : Attempt) → Phase (attempted a)
unfolding attempted
attempted-Phase a = connect-Phase a.resolves a.makes_socket a.room a.request_bytes

forward-Counts :
    (a : Attempt) (pool : UpstreamPool)
    → length pool.sessions + 1 < 2 ^ 64
    → Counts pool
    → Counts (forward a pool)
unfolding forward counted
forward-Counts a pool l h =
    let u = attempted a in
    let one = at_most_one u (attempted-Phase a) in
    record {
      phases = All-append Phase pool.sessions (u ∷ []) h.phases (attempted-Phase a, tt);
      answered = omega (
        arith,
        h.answered,
        length-append pool.sessions (u ∷ []),
        reported-append pool.sessions u,
        sub64_lem ((pool.active_count + 1) % 2 ^ 64) (length u.reports - 0)
            (omega (arith, h.answered)) (omega arith),
      );
    }

-- What completing does to the sessions from some place on, whose count is part of n.
complete-Counts :
    (i : ℕ) (c : Completion) (n rest : ℕ) (us : List UpstreamSession)
    → All Phase us
    → n + reported us ≡ length us + rest
    → n < 2 ^ 64
    → let pool = complete i c n us in
      All Phase pool.sessions
      × (pool.active_count + reported pool.sessions ≡ length us + rest)
      × (length pool.sessions ≡ length us)
unfolding complete counted
complete-Counts i c n rest [] h e l = (tt, e, refl)
complete-Counts zero c n rest (u ∷ us) h e l =
    let next = step-Phase c u h.0 in
    (
      (next, h.1),
      omega (
        arith,
        reports_grow c u h.0,
        at_most_one (step c u) next,
        reported_le us h.1,
        sub64_lem n (length (step c u).reports - length u.reports)
            (omega (arith, at_most_one (step c u) next, reported_le us h.1)) l,
      ),
      refl,
    )
complete-Counts (suc i) c n rest (u ∷ us) h e l =
    let (phases, count, size) =
      complete-Counts i c n (rest + 1 - length u.reports) us h.1 (omega (arith, at_most_one u h.0))
        l in
    ((h.0, phases), omega (arith, count, at_most_one u h.0), ap suc size)

happen-Counts :
    (e : Event) (pool : UpstreamPool)
    → length pool.sessions + 1 < 2 ^ 64
    → Counts pool
    → Counts (happen e pool) × (length (happen e pool).sessions ≤ length pool.sessions + 1)
unfolding happen forward
happen-Counts (forwards a) pool l h =
    (forward-Counts a pool l h, omega (arith, length-append pool.sessions (attempted a ∷ [])))
happen-Counts (completes i c) pool l h =
    let (phases, count, size) =
      complete-Counts i c pool.active_count 0 pool.sessions h.phases (omega (arith, h.answered))
        (omega (arith, h.answered)) in
    (record { phases = phases; answered = omega (arith, count, size) }, omega (arith, size))

run-Counts :
    (es : List Event) (pool : UpstreamPool)
    → length pool.sessions + length es < 2 ^ 64
    → Counts pool
    → Counts (run es pool)
unfolding run
run-Counts [] pool l h = h
run-Counts (e ∷ es) pool l h =
    let (next, size) = happen-Counts e pool (omega arith) h in
    run-Counts es (happen e pool) (omega (arith, size)) next

in_flight-reported :
    (us : List UpstreamSession) → All Phase us → all_in_flight us + reported us ≡ length us
in_flight-reported [] h = omega arith
in_flight-reported (u ∷ us) h = omega (arith, in_flight-reported us h.1, Phase-one u h.0)

-- After fewer than 2 ^ 64 events on a new pool, each a Forward, whatever its Connect meets, or a
-- completion for one of the sessions: ActiveCount is the number of requests that the kernel has of
-- all sessions, and each session either has one there, or has called one callback.
pub run-active_count :
    (es : List Event)
    → length es < 2 ^ 64
    → ((run es empty_pool).active_count ≡ all_in_flight (run es empty_pool).sessions)
      × All Phase (run es empty_pool).sessions
run-active_count es l =
    let h = run-Counts es empty_pool (omega arith) (record { phases = tt; answered = refl }) in
    (omega (arith, h.answered, in_flight-reported (run es empty_pool).sessions h.phases), h.phases)
