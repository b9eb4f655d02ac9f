-- ===== src/Main/Runs.antt =====
-- The process of a server's main.cpp as a run of net/net_server.cpp.
use ran_online.Base.{
  ℕ, zero, suc, Option, some, none, Option-cases, Bool-cases, inl, inr, arith, List, [], ◌∷◌, ◌++◌,
  Bool, ◌≡◌, refl, sym, ap, ◌∙◌, append_assoc, append-nil,
}
use ran_online.NetServer.{Hooks, Call, NetServer, is_zero, start}
use ran_online.NetServer.Lifecycle.{Event, starts, stops, completes, step, run}
use ran_online.Main.Process.{
  Thread, launching, testing, blocking, sleeping, stopping, exited, Process, on_signal, main_goes,
  woken, go_on, on_completed, Reach, here, by_signal, by_main, by_spurious_wakeup, by_completion,
}

-- Whether the events so far have started and stopped the server.
pub data Stage : Type 0 where
  unstarted in_service ended : Stage

-- `none`: a second start, or a stop that has no start before it or a stop already.
next_stage : Event → Stage → Option Stage
next_stage (starts listen_ok concurrency) unstarted = some in_service
next_stage (starts listen_ok concurrency) in_service = none
next_stage (starts listen_ok concurrency) ended = none
next_stage stops unstarted = none
next_stage stops in_service = some ended
next_stage stops ended = none
next_stage (completes l ec) s = some s

abbrev and_on : (Stage → Option Stage) → Option Stage → Option Stage
and_on more none = none
and_on more (some s) = more s

unfoldable pub stage : Stage → List Event → Option Stage
unfolding next_stage
stage s [] = some s
stage s (e ∷ es) = and_on (λ t. stage t es) (next_stage e s)

stage-append :
    (s : Stage) (es : List Event) (e : Event)
    → stage s (es ++ (e ∷ [])) ≡ and_on (next_stage e) (stage s es)
unfolding stage
stage-append s [] e = ground (arith, Option-cases (next_stage e s))
stage-append s (f ∷ es) e = elim (Option-cases (next_stage f s)) [
  | inl bad ↦ rw bad refl
  | inr (t, good) ↦ rw good (stage-append t es e)
]

module _ {S E : Type 0} where
  module _ (hooks : Hooks S E) where
    -- One event more.
    run-append :
        (es : List Event) (e : Event) (srv : NetServer S)
        → run hooks (es ++ (e ∷ [])) srv ≡ (
          (step hooks e (run hooks es srv).0).0,
          (run hooks es srv).1 ++ (step hooks e (run hooks es srv).0).1,
        )
    unfolding run
    run-append [] e srv = ap (λ (c : List (Call E)). ((step hooks e srv).0, c)) (append-nil _)
    run-append (f ∷ es) e srv =
        let (next, first) = step hooks f srv in
        let later = run-append es e next in
        rw later (
          ap (λ (c : List (Call E)). ((step hooks e (run hooks es next).0).0, c))
            (sym (append_assoc first _ _)))

    -- Where `main` is, the events so far have the server in this stage.
    abbrev pub stage_at : Thread → Stage
    stage_at launching = unstarted
    stage_at testing = in_service
    stage_at blocking = in_service
    stage_at sleeping = in_service
    stage_at stopping = in_service
    stage_at (exited zero) = ended
    stage_at (exited (suc code)) = in_service

    record IsRun (srv : NetServer S) (p : Process S E) (es : List Event) : Type 0 where
      same : (p.net, p.calls) ≡ run hooks es srv
      staged : stage unstarted es ≡ some (stage_at p.thread)

    one_more :
        (srv : NetServer S) (p : Process S E) (es : List Event) (e : Event)
        → (p.net, p.calls) ≡ run hooks es srv
        → ((step hooks e p.net).0, p.calls ++ (step hooks e p.net).1)
          ≡ run hooks (es ++ (e ∷ [])) srv
    one_more srv p es e h =
        ap
          (λ (r : NetServer S × List (Call E)). ((step hooks e r.0).0, r.1 ++ (step hooks e r.0).1))
          h
        ∙ sym (run-append es e srv)

    go_on-IsRun :
        (listen_ok : Bool) (concurrency : ℕ) (t : Thread) (srv : NetServer S) (p : Process S E)
        (es : List Event)
        → IsRun srv (record p { thread = t }) es
        → (more : List Event) × IsRun srv
            (go_on hooks listen_ok concurrency t (record p { thread = t }))
            more
    unfolding go_on next_stage
    go_on-IsRun listen_ok concurrency launching srv p es h = (
      es ++ (starts listen_ok concurrency ∷ []),
      record {
        same = one_more srv p es (starts listen_ok concurrency) h.same;
        staged =
            stage-append unstarted es (starts listen_ok concurrency)
            ∙ (rw h.staged
                (elim (Bool-cases (is_zero (start hooks listen_ok concurrency p.net).1.1)) [
                  | inl up ↦ rw up refl
                  | inr down ↦ rw down refl
                ]));
      },
    )
    go_on-IsRun listen_ok concurrency testing srv p es h = (
      es,
      record {
        same = h.same;
        staged =
            h.staged
            ∙ elim (Bool-cases p.stop_flag) [ inl on ↦ rw on refl | inr off ↦ rw off refl ];
      },
    )
    go_on-IsRun listen_ok concurrency blocking srv p es h =
        (es, record { same = h.same; staged = h.staged })
    go_on-IsRun listen_ok concurrency sleeping srv p es h = (es, h)
    go_on-IsRun listen_ok concurrency stopping srv p es h = (
      es ++ (stops ∷ []),
      record {
        same = one_more srv p es stops h.same;
        staged = stage-append unstarted es stops ∙ rw h.staged refl;
      },
    )
    go_on-IsRun listen_ok concurrency (exited code) srv p es h = (es, h)

    woken-stage : (t : Thread) → stage_at (woken t) ≡ stage_at t
    unfolding woken
    woken-stage launching = refl
    woken-stage testing = refl
    woken-stage blocking = refl
    woken-stage sleeping = refl
    woken-stage stopping = refl
    woken-stage (exited zero) = refl
    woken-stage (exited (suc code)) = refl

    Reach-IsRun :
        {srv : NetServer S} {p : Process S E}
        → Reach hooks srv p
        → (es : List Event) × IsRun srv p es
    unfolding run on_signal main_goes on_completed stage
    Reach-IsRun here = ([], record { same = refl; staged = refl })
    Reach-IsRun (by_signal {p} r) =
        let (es, h) = Reach-IsRun r in
        (es, record { same = h.same; staged = h.staged ∙ ap some (sym (woken-stage p.thread)) })
    Reach-IsRun {srv} (by_main {p} r listen_ok concurrency) =
        let (es, h) = Reach-IsRun r in go_on-IsRun listen_ok concurrency p.thread srv p es h
    Reach-IsRun (by_spurious_wakeup r asleep) =
        let (es, h) = Reach-IsRun r in
        (
          es,
          record {
            same = h.same;
            staged = h.staged ∙ ap (λ (t : Thread). some (stage_at t)) asleep;
          },
        )
    Reach-IsRun {srv} (by_completion {p} r l ec) =
        let (es, h) = Reach-IsRun r in
        (
          es ++ (completes l ec ∷ []),
          record {
            same = one_more srv p es (completes l ec) h.same;
            staged = stage-append unstarted es (completes l ec) ∙ rw h.staged refl;
          },
        )

    -- Whatever signals, wake-ups, start errors and completions a server's process meets, its server
    -- and the calls made are those of a run of the server in which it is started once and stopped
    -- once behind that, at most, with completions around: not started while `main` is before its
    -- start, started and not stopped while `main` waits or has exited by 1, and started and stopped
    -- once `main` has exited by 0.
    pub Reach-run :
        {srv : NetServer S} {p : Process S E}
        → Reach hooks srv p
        → (es : List Event) × ((p.net, p.calls) ≡ run hooks es srv)
          × (stage unstarted es ≡ some (stage_at p.thread))
    Reach-run r = let (es, h) = Reach-IsRun r in (es, h.same, h.staged)
