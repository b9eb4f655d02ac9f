-- ===== src/AuthServer/Fields.antt =====
-- The comma-separated texts of the certification, splitFields of servers/authserver/auth_server.cpp.
use ran_online.Base.{
  ℕ, zero, suc, ◌+◌, ◌/◌, ◌%◌, ◌≡◌, ◌∙◌, refl, ap, sym, List, [], ◌∷◌, ◌++◌, true, false, All,
  arith, append_assoc, append-nil, ◌==◌, ltb, Bool-cases, inl, inr, All-append,
}
use ran_online.Base.Int.{ℤ, pos, negsuc}
use ran_online.Strings.{to_string, decimal}
use ran_online.AuthServer.{CertRequest, CertResult, cert_plain, split_from, split_fields}

-- The texts of a list of fields with the separator `d` between them.
unfoldable pub join_fields : ℕ → List ℕ → List (List ℕ) → List ℕ
join_fields d f [] = f
join_fields d f (g ∷ fields) = f ++ (d ∷ join_fields d g fields)

abbrev pub Lacks : ℕ → List ℕ → Type 0
Lacks d = All (λ (c : ℕ). ¬ (c ≡ d))

split_from-end : (d : ℕ) (cur f : List ℕ) → Lacks d f → split_from d cur f ≡ (cur ++ f) ∷ []
unfolding split_from
split_from-end d cur [] h = ap (λ (f : List ℕ). f ∷ []) (sym (append-nil cur))
split_from-end d cur (c ∷ f) (p, h) =
    let e : (c == d) ≡ false = ground arith in
    rw (e, split_from-end d (cur ++ (c ∷ [])) f h, append_assoc cur (c ∷ []) f) refl

split_from-field :
    (d : ℕ) (cur f rest : List ℕ)
    → Lacks d f
    → split_from d cur (f ++ (d ∷ rest)) ≡ (cur ++ f) ∷ split_from d [] rest
unfolding split_from
split_from-field d cur [] rest h =
    let e : (d == d) ≡ true = ground arith in rw (e, append-nil cur) refl
split_from-field d cur (c ∷ f) rest (p, h) =
    let e : (c == d) ≡ false = ground arith in
    rw (e, split_from-field d (cur ++ (c ∷ [])) f rest h, append_assoc cur (c ∷ []) f) refl

-- splitFields takes fields apart that were put together with the separator between them, empty
-- ones included, where no field has the separator in it.
pub split_fields-join :
    (d : ℕ) (f : List ℕ) (fields : List (List ℕ))
    → Lacks d f
    → All (Lacks d) fields
    → split_fields (join_fields d f fields) d ≡ f ∷ fields
unfolding split_fields join_fields
split_fields-join d f [] h hs = split_from-end d [] f h
split_fields-join d f (g ∷ fields) h (p, hs) =
    split_from-field d [] f (join_fields d g fields) h
    ∙ ap (◌∷◌ f) (split_fields-join d g fields p hs)

decimal-Lacks : (fuel n : ℕ) → Lacks 0x2c (decimal fuel n)
unfolding decimal
decimal-Lacks zero n = record {}
decimal-Lacks (suc fuel) n = elim (Bool-cases (ltb n 10)) [
  | inl e ↦ rw e (ground arith, record {})
  | inr e ↦ rw e (
      All-append (λ (c : ℕ). ¬ (c ≡ 0x2c)) (decimal fuel (n / 10)) ((0x30 + n % 10) ∷ [])
        (decimal-Lacks fuel (n / 10)) (ground arith, record {}))
]

pub to_string-Lacks : (i : ℤ) → Lacks 0x2c (to_string i)
unfolding to_string
to_string-Lacks (pos n) = decimal-Lacks 10 n
to_string-Lacks (negsuc n) = (ground arith, decimal-Lacks 10 (suc n))

-- The fields that the answer certifies, in their order.
unfoldable pub cert_fields : CertRequest → CertResult → List (List ℕ)
cert_fields req res =
    to_string req.country
    ∷ to_string req.server_type
    ∷ req.ip
    ∷ to_string req.port
    ∷ res.new_uniq_key
    ∷ to_string res.certification
    ∷ []

pub split_fields-cert_plain :
    (req : CertRequest) (res : CertResult)
    → Lacks 0x2c req.ip
    → Lacks 0x2c res.new_uniq_key
    → split_fields (cert_plain req res) 0x2c ≡ cert_fields req res
unfolding cert_plain cert_fields join_fields
split_fields-cert_plain req res ip key =
    split_fields-join 0x2c (to_string req.country)
      (to_string req.server_type
        ∷ req.ip
        ∷ to_string req.port
        ∷ res.new_uniq_key
        ∷ to_string res.certification
        ∷ [])
      (to_string-Lacks req.country)
      (
        to_string-Lacks req.server_type,
        (ip, (to_string-Lacks req.port, (key, (to_string-Lacks res.certification, record {})))),
      )
