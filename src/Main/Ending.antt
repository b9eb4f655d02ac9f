-- ===== src/Main/Ending.antt =====
-- How the process of a server's main.cpp ends.
use ran_online.Base.{
  ℕ, ◌+◌, List, ◌++◌, Bool, true, false, ◌≡◌, refl, ◌⊎◌, inl, inr, arith, Bool-cases, ◌∙◌, subst,
}
use ran_online.NetServer.{Hooks, Loop, Call, NetServer, is_zero, start_up, start, stop, completed}
use ran_online.NetServer.Lifecycle.{
  starts, stops, completes, IsConsistent, Balanced, flag, step-Balanced, step-IsConsistent, started,
  stopped, started-append, stopped-append,
}
use ran_online.Main.Process.{
  Thread, launching, testing, blocking, sleeping, stopping, exited, Process, on_signal, main_goes,
  on_completed, woken, go_on, Reach, here, by_signal, by_main, by_spurious_wakeup, by_completion,
}

-- What holds of the flag and of a server that runs or not, by where `main` is.
abbrev Placed : Thread → Bool → Bool → Type 0
Placed launching signalled running = running ≡ false
Placed testing signalled running = running ≡ true
Placed blocking signalled running = running ≡ true
Placed sleeping signalled running = running ≡ true
Placed stopping signalled running = (running ≡ true) × (signalled ≡ true)
Placed (exited code) signalled running =
    (running ≡ false) × ((code ≡ 1) ⊎ ((code ≡ 0) × (signalled ≡ true)))

module _ {S E : Type 0} where
  abbrev Counted : NetServer S → List (Call E) → Type 0
  Counted net calls = started calls ≡ stopped calls + flag net.running

  pub record IsOrderly (p : Process S E) : Type 0 where
    pub consistent : IsConsistent p.net
    pub counted : Counted p.net p.calls
    pub placed : Placed p.thread p.stop_flag p.net.running

  module _ (hooks : Hooks S E) where
    append-Counted :
        (net after : NetServer S) (calls more : List (Call E))
        → Counted net calls
        → Balanced hooks net (after, more)
        → Counted after (calls ++ more)
    unfolding Balanced
    append-Counted net after calls more h b =
        omega (arith, h, b, started-append calls more, stopped-append calls more)

    start-running :
        (listen_ok : Bool) (concurrency : ℕ) (net : NetServer S)
        → net.running ≡ false
        → (start hooks listen_ok concurrency net).0.running
          ≡ is_zero (start hooks listen_ok concurrency net).1.1
    unfolding start start_up is_zero
    start-running listen_ok concurrency net off = ground arith

    stop-running : (net : NetServer S) → (stop hooks net).0.running ≡ false
    unfolding stop
    stop-running net = ground arith

    completed-running :
        (l : Loop) (ec : Bool) (net : NetServer S)
        → (completed hooks l ec net).0.running ≡ net.running
    unfolding completed
    completed-running l true net = refl
    completed-running l false net = refl

    woken-Placed :
        (t : Thread) (signalled running : Bool)
        → Placed t signalled running
        → Placed (woken t) true running
    unfolding woken
    woken-Placed launching signalled running h = h
    woken-Placed testing signalled running h = h
    woken-Placed blocking signalled running h = h
    woken-Placed sleeping signalled running h = h
    woken-Placed stopping signalled running h = (h.0, refl)
    woken-Placed (exited code) signalled running (off, inl e) = (off, inl e)
    woken-Placed (exited code) signalled running (off, inr e) = (off, inr (e.0, refl))

    on_completed-IsOrderly :
        (l : Loop) (ec : Bool) (p : Process S E)
        → IsOrderly p
        → IsOrderly (on_completed hooks l ec p)
    unfolding on_completed
    on_completed-IsOrderly l ec p ok = record {
      consistent = step-IsConsistent hooks (completes l ec) p.net ok.consistent;
      counted =
          append-Counted p.net (completed hooks l ec p.net).0 p.calls (completed hooks l ec p.net).1
            ok.counted (step-Balanced hooks (completes l ec) p.net);
      placed = rw (completed-running l ec p.net) ok.placed;
    }

    go_on-IsOrderly :
        (listen_ok : Bool) (concurrency : ℕ) (t : Thread) (p : Process S E)
        → IsOrderly (record p { thread = t })
        → IsOrderly (go_on hooks listen_ok concurrency t (record p { thread = t }))
    unfolding go_on
    go_on-IsOrderly listen_ok concurrency launching p ok = record {
      consistent = step-IsConsistent hooks (starts listen_ok concurrency) p.net ok.consistent;
      counted =
          append-Counted p.net (start hooks listen_ok concurrency p.net).0 p.calls
            (start hooks listen_ok concurrency p.net).1.0 ok.counted
            (step-Balanced hooks (starts listen_ok concurrency) p.net);
      placed = elim (Bool-cases (is_zero (start hooks listen_ok concurrency p.net).1.1)) [
        | inl up ↦ rw up (start-running listen_ok concurrency p.net ok.placed ∙ up)
        | inr down ↦ rw down (start-running listen_ok concurrency p.net ok.placed ∙ down, inl refl)
      ];
    }
    go_on-IsOrderly listen_ok concurrency testing p ok = record {
      consistent = ok.consistent;
      counted = ok.counted;
      placed = elim (Bool-cases p.stop_flag) [
        | inl on ↦ rw on (ok.placed, refl)
        | inr off ↦ rw off ok.placed
      ];
    }
    go_on-IsOrderly listen_ok concurrency blocking p ok = record {
      consistent = ok.consistent;
      counted = ok.counted;
      placed = ok.placed;
    }
    go_on-IsOrderly listen_ok concurrency sleeping p ok = ok
    go_on-IsOrderly listen_ok concurrency stopping p ok = record {
      consistent = step-IsConsistent hooks stops p.net ok.consistent;
      counted =
          append-Counted p.net (stop hooks p.net).0 p.calls (stop hooks p.net).1.0 ok.counted
            (step-Balanced hooks stops p.net);
      placed = (stop-running p.net, inr (refl, ok.placed.1));
    }
    go_on-IsOrderly listen_ok concurrency (exited code) p ok = ok

    Reach-IsOrderly :
        {srv : NetServer S} {p : Process S E}
        → srv.running ≡ false
        → IsConsistent srv
        → Reach hooks srv p
        → IsOrderly p
    unfolding on_signal main_goes
    Reach-IsOrderly off fresh here = record {
      consistent = fresh;
      counted = rw off refl;
      placed = off;
    }
    Reach-IsOrderly off fresh (by_signal {p} r) =
        let ok = Reach-IsOrderly off fresh r in
        record {
          consistent = ok.consistent;
          counted = ok.counted;
          placed = woken-Placed p.thread p.stop_flag p.net.running ok.placed;
        }
    Reach-IsOrderly off fresh (by_main {p} r listen_ok concurrency) =
        go_on-IsOrderly listen_ok concurrency p.thread p (Reach-IsOrderly off fresh r)
    Reach-IsOrderly off fresh (by_spurious_wakeup {p} r asleep) =
        let ok = Reach-IsOrderly off fresh r in
        record {
          consistent = ok.consistent;
          counted = ok.counted;
          placed = subst (λ t. Placed t p.stop_flag p.net.running) asleep ok.placed;
        }
    Reach-IsOrderly off fresh (by_completion {p} r l ec) =
        on_completed-IsOrderly l ec p (Reach-IsOrderly off fresh r)

    -- A process that has exited, whatever signals, wake-ups, start errors and completions it met,
    -- leaves a server that does not run, with its acceptor closed and no worker alive; OnStop was
    -- called as often as OnStart succeeded; and the exit code is 1, or it is 0 and a signal had come.
    pub Reach-exited :
        {srv : NetServer S} {p : Process S E}
        → srv.running ≡ false
        → IsConsistent srv
        → Reach hooks srv p
        → (code : ℕ) → p.thread ≡ exited code
        → (p.net.running ≡ false)
          × (p.net.acceptor_open ≡ false)
          × (p.net.workers ≡ 0)
          × (started p.calls ≡ stopped p.calls)
          × ((code ≡ 1) ⊎ ((code ≡ 0) × (p.stop_flag ≡ true)))
    Reach-exited {srv} {p} off fresh r code ended =
        let ok = Reach-IsOrderly off fresh r in
        let (off_now, codes) = subst (λ t. Placed t p.stop_flag p.net.running) ended ok.placed in
        (
          off_now,
          ok.consistent.accepting ∙ off_now,
          ok.consistent.joined off_now,
          ground (arith, ok.counted),
          codes,
        )
