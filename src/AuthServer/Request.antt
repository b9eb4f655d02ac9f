-- ===== src/AuthServer/Request.antt =====
-- A certification request on its way into servers/authserver/auth_server.cpp.
use ran_online.Base.{
  ℕ, suc, ◌≤◌, ◌<◌, ◌≡◌, ◌∙◌, refl, ap, sym, List, [], ◌∷◌, ◌++◌, false, All, some, IsBytes, arith,
  length, length-append, le→ltb, drop, drop-append_length, ◌==◌, if◌then◌else◌, ltb,
}
use ran_online.Base.Int.{ℤ, pos, negsuc, IsInt}
use ran_online.MinLzo.{Lzo}
use ran_online.Packet.{Message, payload, payload_size}
use ran_online.Session.{Session}
use ran_online.Odbc.{Driver}
use ran_online.AuthCrypto.Rc5.{Shifts, IsHarmless}
use ran_online.AuthCrypto.Cbc.{encrypt_auth_data, decrypt_auth_data}
use ran_online.AuthCrypto.RoundTrip.{decrypt-encrypt_auth_data, length-encrypt_auth_data}
use ran_online.AgentServer.{until_zero}
use ran_online.Strings.{atoi, to_string, text_to_field, decimal}
use ran_online.Strings.Digits.{IsDigit, decimal-IsDigit, atoi-to_string}
use ran_online.AuthServer.Fields.{Lacks, join_fields, split_fields-join, to_string-Lacks}
use ran_online.AuthServer.Answer.{
  IsText, until_zero-text, until_zero-text_to_field, encrypt_auth_data-IsText,
}
use ran_online.AuthServer.{
  AuthServer, CertRequest, is_session, auth_data_length, split_fields, cert_request, answer_cert,
  handle_cert,
}

-- What the server that asks puts into the request: its provider, type, address, port and key.
unfoldable pub request_plain : (country server_type : ℤ) → List ℕ → ℤ → List ℕ → List ℕ
request_plain country server_type ip port uniq_key =
    join_fields 0x2c (to_string country)
      (to_string server_type ∷ ip ∷ to_string port ∷ uniq_key ∷ [])

decimal-IsText : (s : List ℕ) → All IsDigit s → IsText s
decimal-IsText [] h = record {}
decimal-IsText (c ∷ s) (p, h) = (omega arith, decimal-IsText s h)

to_string-IsText : (i : ℤ) → IsText (to_string i)
unfolding to_string
to_string-IsText (pos n) = decimal-IsText (decimal 10 n) (decimal-IsDigit 10 n)
to_string-IsText (negsuc n) =
    (omega arith, decimal-IsText (decimal 10 (suc n)) (decimal-IsDigit 10 (suc n)))

-- A number as a field of the text.
read_number : (i : ℤ) → IsInt 31 i → atoi (until_zero (to_string i)) ≡ i
read_number i h = ap atoi (until_zero-text (to_string i) (to_string-IsText i)) ∙ atoi-to_string i h

-- The request that the server is to process.
abbrev pub meant : (country server_type : ℤ) → List ℕ → ℤ → List ℕ → CertRequest
meant country server_type ip port uniq_key = record {
  country = country;
  server_type = server_type;
  ip = ip;
  port = port;
  uniq_key = uniq_key;
  is_session_svr = if is_session server_type then pos 1 else pos 0;
}

module _ (country server_type : ℤ) (ip : List ℕ) (port : ℤ) (uniq_key : List ℕ)
    (c : IsInt 31 country) (t : IsInt 31 server_type) (p : IsInt 31 port) (no_comma : Lacks 0x2c ip)
    (no_comma_key : Lacks 0x2c uniq_key) where
  cert_request-plain :
      cert_request (split_fields (request_plain country server_type ip port uniq_key) 0x2c)
      ≡ some (meant country server_type ip port uniq_key)
  unfolding cert_request request_plain
  cert_request-plain =
      ap cert_request (
        split_fields-join 0x2c (to_string country)
          (to_string server_type ∷ ip ∷ to_string port ∷ uniq_key ∷ []) (to_string-Lacks country)
          (
            to_string-Lacks server_type,
            (no_comma, (to_string-Lacks port, (no_comma_key, record {}))),
          ))
      ∙ rw (read_number country c, read_number server_type t, read_number port p) refl

  plain-nonempty : 0 < length (request_plain country server_type ip port uniq_key)
  unfolding request_plain join_fields
  plain-nonempty = omega (
    arith,
    length-append (to_string country)
        (0x2c ∷ join_fields 0x2c (to_string server_type) (ip ∷ to_string port ∷ uniq_key ∷ [])),
  )

  -- A request whose payload is as long as the struct, with the encrypted text of provider, type,
  -- address, port and key in its `szAuthData` and anything around it: the server goes on with
  -- exactly those five values. The numbers are any of an `int`, neither text has a comma in it, the
  -- text has 247 bytes at most, and the undefined shifts are harmless.
  pub handle_cert-request :
      (m : Shifts)
      → IsHarmless m
      → (lzo : Lzo) (driver : Driver) (msg : Message) (s : Session) (srv : AuthServer)
        (front rest : List ℕ)
      → payload msg
        ≡ front
          ++ (text_to_field auth_data_length
                (encrypt_auth_data m (request_plain country server_type ip port uniq_key))
              ++ rest)
      → length front ≡ 91
      → 595 ≤ payload_size msg
      → IsBytes (request_plain country server_type ip port uniq_key)
      → length (request_plain country server_type ip port uniq_key) ≤ 247
      → handle_cert m lzo driver msg s srv
        ≡ answer_cert m lzo driver msg.client_id s
            (some (meant country server_type ip port uniq_key))
            srv
  unfolding handle_cert
  handle_cert-request m ok lzo driver msg s srv front rest sent at_91 long bytes short =
      let plain = request_plain country server_type ip port uniq_key in
      let text = encrypt_auth_data m plain in
      let fits : length text ≤ 500 = omega (arith, length-encrypt_auth_data m ok plain) in
      let cut : drop 91 (payload msg) ≡ text_to_field 500 text ++ rest =
        ap (drop 91) sent
        ∙ drop-append_length front (text_to_field 500 text ++ rest) 91 (sym at_91) in
      let field : until_zero (drop 91 (payload msg)) ≡ text =
        ap until_zero cut
        ∙ until_zero-text_to_field 500 text rest (encrypt_auth_data-IsText m plain) fits in
      let read : decrypt_auth_data m (until_zero (drop 91 (payload msg))) ≡ plain =
        ap (decrypt_auth_data m) field ∙ decrypt-encrypt_auth_data m ok plain bytes in
      let enough : ltb (payload_size msg) 595 ≡ false = le→ltb (payload_size msg) 595 long in
      let some_text : (length plain == 0) ≡ false = ground (arith, plain-nonempty) in
      rw (read, enough, some_text, cert_request-plain) refl
