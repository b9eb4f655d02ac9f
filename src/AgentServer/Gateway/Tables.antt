-- ===== src/AgentServer/Gateway/Tables.antt =====
-- The two tables of servers/agentserver/agent_server.cpp that are keyed by client id, over a call.
use ran_online.Base.{
  ℕ, ◌≡◌, refl, ◌∙◌, subst, List, [], ◌∷◌, Bool, false, ◌||◌, some, none, arith, All, if◌then◌else◌,
  ◌==◌, ◌⊎◌, inl, inr, Option-cases,
}
use ran_online.Session.{Session, Effect, start_read, start_write, on_msg, shut_socket, on_close}
use ran_online.Session.Own.{Own, closings}
use ran_online.MsgManager.{msg_queue_insert}
use ran_online.Servers.{find, change}
use ran_online.Servers.Tables.{find-erase_if, find-change_if}
use ran_online.AgentServer.{AgentServer}
use ran_online.AgentServer.Dispatch.{react, react_all, on_session}

unfoldable pub has : ℕ → List ℕ → Bool
has j [] = false
has j (c ∷ cs) = c == j || has j cs

-- What a call does to the entries of the client `j`: its session goes only with its login, and a
-- session that has its key for its id still has.
pub record Tables (j : ℕ) (srv after : AgentServer) : Type 0 where
  pub drops :
      find j after.sessions ≡ none
      → (find j srv.sessions ≡ none) ⊎ (find j after.login_sessions ≡ none)
  pub owned :
      ((s : Session) → find j srv.sessions ≡ some s → s.client_id ≡ j)
      → (s : Session) → find j after.sessions ≡ some s
      → s.client_id ≡ j

pub same-Tables :
    (j : ℕ) (srv after : AgentServer) → after.sessions ≡ srv.sessions → Tables j srv after
same-Tables j srv after same = record {
  drops = λ e. inl (subst (λ t. find j t ≡ none) same e);
  owned = λ h s e. h s (subst (λ t. find j t ≡ some s) same e);
}

-- The close handler's calls take the clients out of both tables, and nothing else does.
pub react_all-find :
    (j : ℕ) (es : List Effect) (srv : AgentServer)
    → (find j (react_all es srv).sessions
        ≡ (if has j (closings es) then none else find j srv.sessions))
      × (find j (react_all es srv).login_sessions
          ≡ (if has j (closings es) then none else find j srv.login_sessions))
unfolding react_all react msg_queue_insert has
react_all-find j [] srv = (refl, refl)
react_all-find j (start_read ∷ es) srv = react_all-find j es srv
react_all-find j (start_write p ∷ es) srv = react_all-find j es srv
react_all-find j (on_msg m ∷ es) srv =
    react_all-find j es (record srv { recv_msgs = msg_queue_insert m srv.recv_msgs })
react_all-find j (shut_socket ∷ es) srv = react_all-find j es srv
react_all-find j (on_close c ∷ es) srv =
    let (p, q) = react_all-find j es (react (on_close c) srv) in
    ground (arith, p, q, find-erase_if j c srv.sessions, find-erase_if j c srv.login_sessions)

pub react_all-Tables :
    (j : ℕ) (es : List Effect) (srv : AgentServer) → Tables j srv (react_all es srv)
react_all-Tables j es srv =
    let told = react_all-find j es srv in
    record { drops = λ e. ground (arith, told, e); owned = λ h s e. ground (arith, told, e, h s) }

has-own :
    (id : ℕ) (cs : List ℕ)
    → All (λ (c : ℕ). c ≡ id) cs
    → (cs ≡ []) ⊎ ((j : ℕ) → has j cs ≡ (id == j))
unfolding has
has-own id [] h = inl refl
has-own id (c ∷ cs) (e, h) = inr (λ j. elim (has-own id cs h) [
  | inl last ↦ rw (e, last) (ground arith)
  | inr more ↦ rw e (ground (arith, more j))
])

-- A session put in the place of the one that the table holds for its id.
pub change-Tables :
    (j id : ℕ) (t : Session) (srv : AgentServer)
    → t.client_id ≡ id
    → Tables j srv (record srv { sessions = change (λ (old : Session). t) id srv.sessions })
change-Tables j id t srv same =
    let told = find-change_if (λ (old : Session). t) j id srv.sessions in
    elim (Option-cases (find j srv.sessions)) [
      | inl gone ↦ record { drops = λ e. inl gone; owned = λ h s e. ground (arith, told, gone, e) }
      | inr (v, there) ↦ record {
        drops = λ e. ground (arith, told, there, e);
        owned = λ h s e. ground (arith, told, there, e, h s);
      }
    ]

pub then-Tables :
    (j : ℕ) (srv mid after : AgentServer)
    → Tables j srv mid
    → Tables j mid after
    → (find j mid.login_sessions ≡ none → find j after.login_sessions ≡ none)
    → Tables j srv after
then-Tables j srv mid after a b stays = record {
  drops = λ e. elim (b.drops e) [
    | inr gone ↦ inr gone
    | inl none_mid ↦ elim (a.drops none_mid) [
      | inl none_there ↦ inl none_there
      | inr gone ↦ inr (stays gone)
    ]
  ];
  owned = λ h. b.owned (a.owned h);
}

-- A call on a session: what it does to the logins, and to both tables.
pub on_session-logins :
    (j id : ℕ) (s : Session) (r : Session × List Effect) (srv : AgentServer)
    → s.client_id ≡ id
    → Own s.client_id s.closed r
    → (find j (on_session id r srv).0.login_sessions ≡ find j srv.login_sessions)
      ⊎ ((id ≡ j) × (find j (on_session id r srv).0.login_sessions ≡ none))
unfolding on_session has
on_session-logins j id s (t, es) srv same own =
    let (sessions, logins) =
      react_all-find j es
        (record srv { sessions = change (λ (old : Session). t) id srv.sessions }) in
    elim (has-own id (closings es)
      (subst (λ i. All (λ (c : ℕ). c ≡ i) (closings es)) same own.own_id)) [
        | inl none_closed ↦ inl (ground (arith, none_closed, logins))
        | inr gone ↦ ground (arith, gone j, logins)
      ]

pub on_session-Tables :
    (j id : ℕ) (s : Session) (r : Session × List Effect) (srv : AgentServer)
    → s.client_id ≡ id
    → Own s.client_id s.closed r
    → Tables j srv (on_session id r srv).0
unfolding on_session
on_session-Tables j id s (t, es) srv same own =
    let held : AgentServer = record srv {
      sessions = change (λ (old : Session). t) id srv.sessions;
    } in
    then-Tables j srv held (react_all es held) (change-Tables j id t srv (own.same_id ∙ same))
      (react_all-Tables j es held) (λ e. ground (arith, e, (react_all-find j es held).1))
