-- ===== src/Main.antt =====
-- servers/{agentserver,authserver,fieldserver,loginserver,sessionserver}/main.cpp, which differ in the
-- server's class, the variable of its port, the port and the database they fall back on, and the
-- lines that they print, which are left out. `getenv` is a parameter.
use ran_online.Base.{
  ℕ, suc, ◌+◌, ◌-◌, ◌%◌, ◌^◌, List, [], ◌∷◌, ◌++◌, Bool, true, false, Option, some, none, ◌≡◌,
}
use ran_online.Base.{if◌then◌else◌, ◌==◌, length, codes, same_text}
use ran_online.Base.Int.{ℤ, pos, negsuc}
use ran_online.Strings.{atoi}
pub mod Arguments
pub mod Process
pub mod Ending
pub mod Runs

-- `static_cast<unsigned short>`.
unfoldable pub to_port : ℤ → ℕ
to_port (pos n) = n % 2 ^ 16
to_port (negsuc n) = 2 ^ 16 - suc (n % 2 ^ 16)

-- The variables of `main`.
pub record Settings : Type 0 where
  pub port : ℕ
  pub db_conn : List ℕ

-- The loop over `argv`, from its second element on.
unfoldable pub parse_args : List (List ℕ) → Settings → Settings
parse_args [] set = set
parse_args (a ∷ []) set = set
parse_args (a ∷ value ∷ rest) set =
    let after = parse_args rest in
    let skip = parse_args (value ∷ rest) in
    if same_text a (codes "--port")
    then after (record set { port = to_port (atoi value) })
    else if same_text a (codes "--db")
    then after (record set { db_conn = value })
    else skip set

abbrev or_else : Option (List ℕ) → List ℕ → List ℕ
or_else none default = default
or_else (some value) default = value

module _ (getenv : List ℕ → Option (List ℕ)) where
  conn_text : Option (List ℕ) → Option (List ℕ) → List ℕ → List ℕ
  conn_text none server database = []
  conn_text (some password) none database = []
  conn_text (some password) (some server) database =
      codes "DRIVER={ODBC Driver 18 for SQL Server};SERVER="
      ++ (server
          ++ (codes ";UID=sa;PWD="
              ++ (password
                  ++ (codes ";DATABASE="
                      ++ (database ++ codes ";Encrypt=yes;TrustServerCertificate=yes;")))))

  -- `dbConnFromEnv`, by the database it falls back on.
  db_conn_from_env : List ℕ → List ℕ
  unfolding conn_text
  db_conn_from_env default =
      conn_text (getenv (codes "SA_PASSWORD")) (getenv (codes "DB_SERVER"))
        (or_else (getenv (codes "DB_NAME")) default)

  port_from_env : Option (List ℕ) → ℕ → ℕ
  port_from_env none default = default
  port_from_env (some text) default = to_port (atoi text)

  -- The two fallbacks below the loop.
  fall_back : List ℕ → ℕ → List ℕ → Settings → Settings
  unfolding port_from_env db_conn_from_env
  fall_back variable default_port default_database set = record {
    port = if set.port == 0 then port_from_env (getenv variable) default_port else set.port;
    db_conn = if length set.db_conn == 0 then db_conn_from_env default_database else set.db_conn;
  }

  unfoldable pub settings : List ℕ → ℕ → List ℕ → List (List ℕ) → Settings
  unfolding fall_back
  settings variable default_port default_database argv =
      fall_back variable default_port default_database
        (parse_args argv (record { port = 0; db_conn = [] }))

  -- What each of the five programs gives to its server's constructor.
  unfoldable pub agent_settings : List (List ℕ) → Settings
  unfolding settings
  agent_settings = settings (codes "AGENT_PORT") 9301 (codes "RanUser")

  unfoldable pub auth_settings : List (List ℕ) → Settings
  unfolding settings
  auth_settings = settings (codes "AUTH_PORT") 9101 (codes "RanUser")

  unfoldable pub field_settings : List (List ℕ) → Settings
  unfolding settings
  field_settings = settings (codes "FIELD_PORT") 9501 (codes "RanGameS1")

  unfoldable pub login_settings : List (List ℕ) → Settings
  unfolding settings
  login_settings = settings (codes "LOGIN_PORT") 9200 (codes "RanUser")

  unfoldable pub session_settings : List (List ℕ) → Settings
  unfolding settings
  session_settings = settings (codes "SESSION_PORT") 9401 (codes "RanUser")
