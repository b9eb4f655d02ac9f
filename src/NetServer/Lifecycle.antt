-- ===== src/NetServer/Lifecycle.antt =====
-- Runs of net/net_server.cpp: starts, stops, and completion handlers in any order.
use ran_online.Base.{
  ℕ, suc, ◌+◌, ◌≡◌, refl, ◌<◌, List, [], ◌∷◌, ◌++◌, map, Bool, true, false, arith, if◌then◌else◌,
  Bool-cases, inl, inr,
}
use ran_online.Base.Int.{ℤ}
use ran_online.NetServer.{
  Hooks, Loop, Call, on_start_called, on_stop_called, begins, effect, NetServer, is_zero, pool_size,
  start_up, start, stop, completed, hook_of,
}

pub data Event : Type 0 where
  starts : Bool → ℕ → Event
  stops : Event
  completes : Loop → Bool → Event

pub record IsConsistent {S : Type 0} (srv : NetServer S) : Type 0 where
  pub accepting : srv.acceptor_open ≡ srv.running
  pub guarded : srv.work ≡ srv.running
  pub pooled : srv.running ≡ true → 0 < srv.workers
  pub joined : srv.running ≡ false → srv.workers ≡ 0

abbrev pub flag : Bool → ℕ
flag true = 1
flag false = 0

-- Successful calls of OnStart, and calls of OnStop.
module _ {E : Type 0} where
  abbrev pub started : List (Call E) → ℕ
  started [] = 0
  started (on_start_called ok ∷ calls) = flag ok + started calls
  started (_ ∷ calls) = started calls

  abbrev pub stopped : List (Call E) → ℕ
  stopped [] = 0
  stopped (on_stop_called ∷ calls) = suc (stopped calls)
  stopped (_ ∷ calls) = stopped calls

  pub started-append : (xs ys : List (Call E)) → started (xs ++ ys) ≡ started xs + started ys
  started-append [] ys = omega arith
  started-append (on_start_called ok ∷ xs) ys = omega (arith, started-append xs ys)
  started-append (x ∷ xs) ys = started-append xs ys

  pub stopped-append : (xs ys : List (Call E)) → stopped (xs ++ ys) ≡ stopped xs + stopped ys
  stopped-append [] ys = omega arith
  stopped-append (on_stop_called ∷ xs) ys = omega (arith, stopped-append xs ys)
  stopped-append (x ∷ xs) ys = stopped-append xs ys

  -- What a virtual method does are no calls of OnStart and OnStop.
  effects_lem : (es : List E) → (started (map effect es) ≡ 0) × (stopped (map effect es) ≡ 0)
  effects_lem [] = (refl, refl)
  effects_lem (e ∷ es) = effects_lem es

module _ {S E : Type 0} where
  module _ (hooks : Hooks S E) where
    abbrev pub step : Event → NetServer S → NetServer S × List (Call E)
    step (starts listen_ok concurrency) srv =
        let (after, (calls, rc)) = start hooks listen_ok concurrency srv in (after, calls)
    step stops srv = let (after, (calls, rc)) = stop hooks srv in (after, calls)
    step (completes l ec) srv = completed hooks l ec srv

    unfoldable pub run : List Event → NetServer S → NetServer S × List (Call E)
    run [] srv = (srv, [])
    run (e ∷ es) srv =
        let (next, first) = step e srv in let (last, later) = run es next in (last, first ++ later)

    start_up-IsConsistent :
        (listen_ok : Bool) (concurrency : ℕ) (r : S × ℤ) (srv : NetServer S)
        → IsConsistent srv
        → srv.running ≡ false
        → IsConsistent (start_up hooks listen_ok concurrency r srv).0
    unfolding start_up is_zero pool_size
    start_up-IsConsistent listen_ok concurrency (server, rc) srv ok off = ground arith

    pub step-IsConsistent :
        (e : Event) (srv : NetServer S) → IsConsistent srv → IsConsistent (step e srv).0
    unfolding start stop completed
    step-IsConsistent (starts listen_ok concurrency) srv ok = elim (Bool-cases srv.running) [
      | inl on ↦ simp on ok
      | inr off ↦
          simp off
            (start_up-IsConsistent listen_ok concurrency (hooks.on_start srv.server) srv ok off)
    ]
    step-IsConsistent stops srv ok = ground arith
    step-IsConsistent (completes l true) srv ok = ok
    step-IsConsistent (completes l false) srv ok = record {
      accepting = ok.accepting;
      guarded = ok.guarded;
      pooled = ok.pooled;
      joined = ok.joined;
    }

    -- In every run of starts that succeed or fail, stops and completions from a new server: while it
    -- runs the acceptor is open, the work guard is held and the pool has a worker at least; else the
    -- acceptor is closed, the guard is released and every worker was joined. So a start that fails
    -- leaves nothing behind.
    pub run-IsConsistent :
        (es : List Event) (srv : NetServer S) → IsConsistent srv → IsConsistent (run es srv).0
    unfolding run
    run-IsConsistent [] srv ok = ok
    run-IsConsistent (e ∷ es) srv ok =
        run-IsConsistent es (step e srv).0 (step-IsConsistent e srv ok)

    -- OnStart succeeded as often as OnStop was called, and once more while the server runs.
    unfoldable pub Balanced : NetServer S → NetServer S × List (Call E) → Type 0
    Balanced srv (after, calls) =
        flag srv.running + started calls ≡ stopped calls + flag after.running

    start_up-Balanced :
        (listen_ok : Bool) (concurrency : ℕ) (r : S × ℤ) (srv : NetServer S)
        → srv.running ≡ false
        → let result = start_up hooks listen_ok concurrency r srv in
          Balanced srv (result.0, result.1.0)
    unfolding start_up Balanced
    start_up-Balanced listen_ok concurrency (server, rc) srv off = ground arith

    pub step-Balanced : (e : Event) (srv : NetServer S) → Balanced srv (step e srv)
    unfolding start stop completed Balanced
    step-Balanced (starts listen_ok concurrency) srv =
        ground (arith, start_up-Balanced listen_ok concurrency (hooks.on_start srv.server) srv)
    step-Balanced stops srv = ground arith
    step-Balanced (completes l true) srv = omega arith
    step-Balanced (completes l false) srv =
        let did = (hook_of hooks l srv.server).1 in
        let again : List (Call E) = if srv.running then begins l ∷ [] else [] in
        let nothing = effects_lem did in
        ground (
          arith,
          started-append (map effect did) again,
          stopped-append (map effect did) again,
          nothing.0,
          nothing.1,
        )

    run-Balanced : (es : List Event) (srv : NetServer S) → Balanced srv (run es srv)
    unfolding run Balanced
    run-Balanced [] srv = omega arith
    run-Balanced (e ∷ es) srv =
        let (next, first) = step e srv in
        let later = (run es next).1 in
        omega (
          arith,
          step-Balanced e srv,
          run-Balanced es next,
          started-append first later,
          stopped-append first later,
        )

    -- Over every run, OnStart has succeeded as often as OnStop was called, and once more if the server
    -- runs at the end: no stop is missed or doubled, not for a start whose listening fails either.
    pub run_balanced :
        (es : List Event) (srv : NetServer S)
        → srv.running ≡ false
        → started (run es srv).1 ≡ stopped (run es srv).1 + flag (run es srv).0.running
    unfolding Balanced
    run_balanced es srv off = ground (arith, run-Balanced es srv)
