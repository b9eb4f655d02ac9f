-- ===== src/Main/Arguments.antt =====
-- What the command line of a server's main.cpp asks for is what the server is given.
use ran_online.Base.{
  ℕ, ◌^◌, ◌<◌, List, [], ◌∷◌, ◌++◌, ◌||◌, Bool, true, false, Option, ◌≡◌, refl, ap, sym, ◌∙◌, arith,
}
use ran_online.Base.{length, codes, same_text}
use ran_online.Base.Int.{pos}
use ran_online.Strings.{atoi, to_string}
use ran_online.Strings.Digits.{atoi-to_string}
use ran_online.Main.{Settings, to_port, parse_args, settings}

abbrev pub is_flag : List ℕ → Bool
is_flag a = same_text a (codes "--port") || same_text a (codes "--db")

-- Each flag has a value behind it.
pub data IsComplete : List (List ℕ) → Type 0 where
  done : IsComplete []
  flag :
      (a value : List ℕ) (rest : List (List ℕ))
      → is_flag a ≡ true
      → IsComplete rest
      → IsComplete (a ∷ value ∷ rest)
  word :
      (a : List ℕ) (rest : List (List ℕ))
      → is_flag a ≡ false
      → IsComplete rest
      → IsComplete (a ∷ rest)

parse_args-word :
    (a : List ℕ) (rest : List (List ℕ)) (set : Settings)
    → is_flag a ≡ false
    → parse_args (a ∷ rest) set ≡ parse_args rest set
unfolding parse_args
parse_args-word a [] set h = refl
parse_args-word a (value ∷ rest) set h = ground arith

parse_args-append :
    (xs ys : List (List ℕ)) (set : Settings)
    → IsComplete xs
    → parse_args (xs ++ ys) set ≡ parse_args ys (parse_args xs set)
unfolding parse_args
parse_args-append _ ys set done = refl
parse_args-append _ ys set (flag a value rest h ok) = ground (
  arith,
  parse_args-append rest ys (record set { port = to_port (atoi value) }) ok,
  parse_args-append rest ys (record set { db_conn = value }) ok,
)
parse_args-append _ ys set (word a rest h ok) =
    parse_args-word a (rest ++ ys) set h
    ∙ parse_args-append rest ys set ok
    ∙ ap (parse_args ys) (sym (parse_args-word a rest set h))

to_port-to_string : (p : ℕ) → p < 2 ^ 16 → to_port (atoi (to_string (pos p))) ≡ p
unfolding to_port
to_port-to_string p h = ap to_port (atoi-to_string (pos p) (omega arith)) ∙ omega arith

-- A command line that ends in a port and a connection gives the server these two, whatever other
-- words, flags and values stand in front, where each flag has its value, and whatever the
-- environment holds: for every port of 16 bits but 0, written in decimal, and every connection text
-- that is not empty.
pub settings-last :
    (getenv : List ℕ → Option (List ℕ)) (variable default_database : List ℕ) (default_port : ℕ)
    (argv : List (List ℕ)) (p : ℕ) (conn : List ℕ)
    → IsComplete argv
    → 0 < p
    → p < 2 ^ 16
    → 0 < length conn
    → settings getenv variable default_port default_database
        (argv ++ (codes "--port" ∷ to_string (pos p) ∷ codes "--db" ∷ conn ∷ []))
      ≡ record { port = p; db_conn = conn }
unfolding settings parse_args
settings-last getenv variable default_database default_port argv p conn ok positive small nonempty =
    rw
      (parse_args-append argv (codes "--port" ∷ to_string (pos p) ∷ codes "--db" ∷ conn ∷ [])
        (record { port = 0; db_conn = [] }) ok)
      (rw (to_port-to_string p small) (ground arith))
