-- ===== src/AgentServer/Gateway/Invariant.antt =====
-- Who has a login in the gateway of servers/agentserver/agent_server.cpp, over all its runs.
use mathlib.Core.Option
use ran_online.Base.{
  ℕ, ◌+◌, ◌%◌, ◌^◌, ◌≡◌, refl, ◌∙◌, sym, subst, List, [], ◌∷◌, Bool, true, false, Option, some,
  none, ◌==◌, length, ◌⊎◌, inl, inr, Bool-cases, codes, arith,
}
use ran_online.MinLzo.{Lzo}
use ran_online.Packet.{Message}
use ran_online.Session.{
  Session, Effect, on_close, new_session, do_read, read_done, write_done, flush,
}
use ran_online.Session.Own.{Own, OwnIn, read_done-Own, write_done-Own, flush-Own}
use ran_online.Odbc.{Driver, OdbcDb}
use ran_online.Odbc.Results.{open_connection, is_opened, execute}
use ran_online.Servers.{find, flush_sessions}
use ran_online.Servers.Tables.{find-assign_if, find-flush_sessions}
use ran_online.AgentServer.{AgentServer, LoginSession, idn_net_msg_login}
use ran_online.AgentServer.Dispatch.{react_all, on_session, handle}
use ran_online.AgentServer.Lifecycle.{
  start_db, on_start, on_stop, on_accept, on_read, read_on, written, write_on, on_write,
  on_late_read,
}
use ran_online.AgentServer.Gateway.{
  Gateway, note, Step, starts, stops, accepts, reads, late_reads, writes, works, closes, flips,
  takes, skips, handles, flushes, Reach, here, next,
}
use ran_online.AgentServer.Gateway.Tables.{
  has, Tables, same-Tables, react_all-Tables, react_all-find, change-Tables, on_session-Tables,
  on_session-logins,
}
use ran_online.AgentServer.Gateway.Logins.{Move, Moved}
use ran_online.AgentServer.Gateway.Logins.Handlers.{handle-Moved}

-- Each session of the table has its key for its id, and a client with a login has a session, unless
-- it is named in `raced`.
pub record IsSound (srv : AgentServer) (raced : List ℕ) : Type 0 where
  pub own : (id : ℕ) (s : Session) → find id srv.sessions ≡ some s → s.client_id ≡ id
  pub live :
      (id : ℕ)
      → find id srv.sessions ≡ none
      → (find id srv.login_sessions ≡ none) ⊎ (has id raced ≡ true)

-- A step that takes logins only away.
moved-IsSound :
    (srv after : AgentServer) (raced : List ℕ)
    → IsSound srv raced
    → ((j : ℕ) → Tables j srv after)
    → ((j : ℕ) → find j srv.login_sessions ≡ none → find j after.login_sessions ≡ none)
    → IsSound after raced
moved-IsSound srv after raced ok tables logins = record {
  own = λ j s e. (tables j).owned (ok.own j) s e;
  live = λ j e. elim ((tables j).drops e) [
    | inr gone ↦ inl gone
    | inl none_there ↦ elim (ok.live j none_there) [
      | inl no_login ↦ inl (logins j no_login)
      | inr late ↦ inr late
    ]
  ];
}

same-IsSound :
    (srv after : AgentServer) (raced : List ℕ)
    → IsSound srv raced
    → after.sessions ≡ srv.sessions
    → after.login_sessions ≡ srv.login_sessions
    → IsSound after raced
same-IsSound srv after raced ok sessions logins =
    moved-IsSound srv after raced ok (λ j. same-Tables j srv after sessions)
      (λ j h. subst (λ t. find j t ≡ none) (sym logins) h)

call-IsSound :
    (id : ℕ) (s : Session) (r : Session × List Effect) (srv : AgentServer) (raced : List ℕ)
    → IsSound srv raced
    → s.client_id ≡ id
    → Own s.client_id s.closed r
    → IsSound (on_session id r srv).0 raced
call-IsSound id s r srv raced ok same own =
    moved-IsSound srv _ raced ok (λ j. on_session-Tables j id s r srv same own)
      (λ j h. elim (on_session-logins j id s r srv same own) [
        | inl kept ↦ kept ∙ h
        | inr (e, gone) ↦ gone
      ])

start_db-tables :
    (driver : Driver) (r : OdbcDb × Bool) (srv : AgentServer)
    → ((start_db driver r srv).0.sessions ≡ srv.sessions)
      × ((start_db driver r srv).0.login_sessions ≡ srv.login_sessions)
unfolding start_db
start_db-tables driver (db, false) srv = (refl, refl)
start_db-tables driver (db, true) srv =
    elim (Bool-cases
      (execute driver (codes "SELECT TOP 1 name FROM sys.tables ORDER BY name") db).1) [
        | inl done ↦ rw done (refl, refl)
        | inr failed ↦ rw failed (refl, refl)
      ]

on_accept-IsSound :
    (srv : AgentServer) (raced : List ℕ) → IsSound srv raced → IsSound (on_accept srv).0 raced
unfolding on_accept do_read new_session
on_accept-IsSound srv raced ok =
    let id = (srv.next_client_id + 1) % 2 ^ 32 in
    let told = λ (j : ℕ). find-assign_if j id (new_session id) srv.sessions in
    record {
      own = λ j s e. ground (arith, told j, e, ok.own j s);
      live = λ j e. ground (arith, told j, e, ok.live j);
    }

flush-own :
    (lzo : Lzo) (j : ℕ) (o : Option Session) (u : Session)
    → Option.map (λ (s : Session). (flush lzo s).0) o ≡ some u
    → ((s : Session) → o ≡ some s → s.client_id ≡ j)
    → u.client_id ≡ j
flush-own lzo j none u e h = cc
flush-own lzo j (some s) u e h =
    let there : (flush lzo s).0 ≡ u = cc in
    subst (λ (t : Session). t.client_id ≡ j) there ((flush-Own lzo s).same_id ∙ h s refl)

flush-none :
    (lzo : Lzo) (o : Option Session)
    → Option.map (λ (s : Session). (flush lzo s).0) o ≡ none
    → o ≡ none
flush-none lzo none e = refl
flush-none lzo (some s) e = cc

flush_sessions-IsSound :
    (lzo : Lzo) (srv : AgentServer) (raced : List ℕ)
    → IsSound srv raced
    → IsSound (record srv { sessions = (flush_sessions lzo srv.sessions).0 }) raced
flush_sessions-IsSound lzo srv raced ok =
    let flushed = λ (j : ℕ). find-flush_sessions lzo j srv.sessions in
    record {
      own = λ j u e. flush-own lzo j (find j srv.sessions) u (sym (flushed j) ∙ e) (ok.own j);
      live = λ j e. ok.live j (flush-none lzo (find j srv.sessions) (sym (flushed j) ∙ e));
    }

read_on-IsSound :
    (lzo : Lzo) (id : ℕ) (ec : Bool) (chunk : List ℕ) (o : Option Session) (srv : AgentServer)
    (raced : List ℕ)
    → find id srv.sessions ≡ o
    → IsSound srv raced
    → IsSound (read_on lzo id ec chunk o srv).0 raced
unfolding read_on
read_on-IsSound lzo id ec chunk none srv raced found ok = ok
read_on-IsSound lzo id ec chunk (some s) srv raced found ok =
    call-IsSound id s _ srv raced ok (ok.own id s found) (read_done-Own lzo ec chunk s)

written-IsSound :
    (id : ℕ) (s : Session) (o : Option (Session × List Effect)) (srv after : AgentServer)
    (raced : List ℕ) (effects : List (ℕ × Effect))
    → written id o srv ≡ some (after, effects)
    → s.client_id ≡ id
    → OwnIn s.client_id s.closed o
    → IsSound srv raced
    → IsSound after raced
unfolding written
written-IsSound id s none srv after raced effects e same own ok = cc
written-IsSound id s (some r) srv after raced effects e same own ok =
    let there : (on_session id r srv).0 ≡ after = cc in
    subst (λ t. IsSound t raced) there (call-IsSound id s r srv raced ok same own)

write_on-IsSound :
    (id : ℕ) (ec : Bool) (o : Option Session) (srv after : AgentServer) (raced : List ℕ)
    (effects : List (ℕ × Effect))
    → write_on id ec o srv ≡ some (after, effects)
    → find id srv.sessions ≡ o
    → IsSound srv raced
    → IsSound after raced
unfolding write_on
write_on-IsSound id ec none srv after raced effects e found ok =
    let there : srv ≡ after = cc in subst (λ t. IsSound t raced) there ok
write_on-IsSound id ec (some s) srv after raced effects e found ok =
    written-IsSound id s (write_done ec s) srv after raced effects e (ok.own id s found)
      (write_done-Own ec s) ok

-- A handler: a login that it leaves to a client without a session is noted.
note-has :
    (msg : Message) (o : Option Session) (raced : List ℕ) (j : ℕ)
    → (has j raced ≡ true) ⊎ ((msg.client_id ≡ j) × ((msg.type ≡ idn_net_msg_login) × (o ≡ none)))
    → has j (note msg o raced) ≡ true
unfolding note has
note-has msg (some s) raced j (inl h) = h
note-has msg (some s) raced j (inr (e, (t, n))) = cc
note-has msg none raced j (inl h) = ground (arith, h)
note-has msg none raced j (inr (e, (t, n))) = ground (arith, e, t)

left_behind :
    (driver : Driver) (ip : List ℕ) (msg : Message) (j : ℕ) (srv : AgentServer) (raced : List ℕ)
    (o : Option LoginSession)
    → IsSound srv raced
    → find j srv.sessions ≡ none
    → Move driver ip msg j srv o
    → (o ≡ none) ⊎ (has j (note msg (find msg.client_id srv.sessions) raced) ≡ true)
left_behind driver ip msg j srv raced _ ok gone Move.stays = elim (ok.live j gone) [
  | inl no_login ↦ inl no_login
  | inr late ↦ inr (note-has msg (find msg.client_id srv.sessions) raced j (inl late))
]
left_behind driver ip msg j srv raced _ ok gone (Move.leaves e) = inl refl
left_behind driver ip msg j srv raced _ ok gone (Move.logs_in db err_code user e t v r) = inr (
    note-has msg (find msg.client_id srv.sessions) raced j
      (inr (e, (t, subst (λ i. find i srv.sessions ≡ none) (sym e) gone))))
left_behind driver ip msg j srv raced _ ok gone (Move.passes l e t there p ready r) =
    elim (ok.live j gone) [
      | inl no_login ↦ absurd (ground (arith, no_login, there))
      | inr late ↦ inr (note-has msg (find msg.client_id srv.sessions) raced j (inl late))
    ]

module _ (lzo : Lzo) (driver : Driver) (remote_ip : ℕ → List ℕ) where
  handle-IsSound :
      (ip : List ℕ) (msg : Message) (s : Session) (srv : AgentServer) (raced : List ℕ)
      → IsSound srv raced
      → s.client_id ≡ msg.client_id
      → IsSound
          (handle lzo driver ip msg s srv).0
          (note msg (find msg.client_id srv.sessions) raced)
  unfolding Moved
  handle-IsSound ip msg s srv raced ok same =
      let moved = λ (j : ℕ). handle-Moved driver ip msg j srv lzo s same in
      record {
        own = λ j u e. (moved j).1.owned (ok.own j) u e;
        live = λ j e. elim ((moved j).1.drops e) [
          | inr gone ↦ inl gone
          | inl none_there ↦ left_behind driver ip msg j srv raced _ ok none_there (moved j).0
        ];
      }

  Step-IsSound :
      {g after : Gateway}
      → Step lzo driver remote_ip g after
      → IsSound g.srv g.raced
      → IsSound after.srv after.raced
  unfolding on_start on_stop on_read on_late_read on_write react_all
  Step-IsSound {g} (starts env_ok dbc_ok connect_ok) ok =
      elim (Bool-cases (length g.srv.db_conn == 0)) [
        | inl none_given ↦ rw none_given ok
        | inr given ↦
            let (a, b) =
              start_db-tables driver (open_connection env_ok dbc_ok connect_ok g.srv.db) g.srv in
            rw given (same-IsSound g.srv _ g.raced ok a b)
      ]
  Step-IsSound {g} stops ok = elim (Bool-cases (is_opened g.srv.db)) [
    | inl open_there ↦ rw open_there (same-IsSound g.srv _ g.raced ok refl refl)
    | inr shut ↦ rw shut ok
  ]
  Step-IsSound {g} accepts ok = on_accept-IsSound g.srv g.raced ok
  Step-IsSound {g} (reads id ec chunk) ok =
      read_on-IsSound lzo id ec chunk (find id g.srv.sessions) g.srv g.raced refl ok
  Step-IsSound {g} (late_reads s ec chunk) ok =
      let es = (read_done lzo ec chunk s).1 in
      moved-IsSound g.srv _ g.raced ok (λ j. react_all-Tables j es g.srv)
        (λ j h. ground (arith, h, (react_all-find j es g.srv).1))
  Step-IsSound {g} (writes id ec after effects e) ok =
      write_on-IsSound id ec (find id g.srv.sessions) g.srv after g.raced effects e refl ok
  Step-IsSound {g} (works id t same) ok =
      moved-IsSound g.srv _ g.raced ok (λ j. change-Tables j id t g.srv same) (λ j h. h)
  Step-IsSound {g} (closes id) ok =
      let es : List Effect = on_close id ∷ [] in
      moved-IsSound g.srv _ g.raced ok (λ j. react_all-Tables j es g.srv)
        (λ j h. ground (arith, h, (react_all-find j es g.srv).1))
  Step-IsSound {g} flips ok = same-IsSound g.srv _ g.raced ok refl refl
  Step-IsSound {g} (takes queue msg s idle got found) ok = same-IsSound g.srv _ g.raced ok refl refl
  Step-IsSound {g} (skips queue msg idle got found) ok = same-IsSound g.srv _ g.raced ok refl refl
  Step-IsSound {g} (handles msg s busy same) ok =
      handle-IsSound (remote_ip msg.client_id) msg s g.srv g.raced ok same
  Step-IsSound {g} flushes ok = flush_sessions-IsSound lzo g.srv g.raced ok

  -- In every state that a gateway reaches from its start, with the I/O threads' accepts, reads, write
  -- completions and close handlers between the parts of a tick in any order, and with any bytes,
  -- database answers and errors: each session of the table has its key for its id, and a client with
  -- a login has a session, unless its link had ended when the handler of a login message of its ran
  -- for which the tick had found its session before.
  pub Reach-IsSound : {g : Gateway} → Reach lzo driver remote_ip g → IsSound g.srv g.raced
  unfolding find
  Reach-IsSound (here (a, b)) = record {
    own = λ j s e.
        let there : none ≡ some s = subst (λ (t : List (ℕ × Session)). find j t ≡ some s) a e in cc;
    live = λ j e. inl (rw b refl);
  }
  Reach-IsSound (next r st) = Step-IsSound st (Reach-IsSound r)
