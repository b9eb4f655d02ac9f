-- ===== src/AuthServer/Answer.antt =====
-- What the receiver of a certification answer reads, servers/authserver/auth_server.cpp.
use ran_online.Base.{
  ℕ, suc, ◌+◌, ◌-◌, ◌/◌, ◌≤◌, ◌<◌, ◌≡◌, ◌∙◌, refl, ap, sym, List, [], ◌∷◌, ◌++◌, false, All,
  IsBytes, arith, length, take, drop, replicate, take-all, append_assoc, drop-append_length,
  length-append, length-replicate, length-take, ◌==◌,
}
use ran_online.Base.{if◌then◌else◌}
use ran_online.Base.Int.{pos}
use ran_online.Packet.{write_le32}
use ran_online.AuthCrypto.Rc5.{Shifts, IsHarmless, key_expand}
use ran_online.AuthCrypto.Cbc.{
  encrypt_auth_data, decrypt_auth_data, encrypt_chain, pad, key_str, initial_iv,
}
use ran_online.AuthCrypto.Hex.{hex_encode, hex_digit}
use ran_online.AuthCrypto.RoundTrip.{decrypt-encrypt_auth_data, length-encrypt_auth_data}
use ran_online.AgentServer.{until_zero, write_int}
use ran_online.AuthServer.Fields.{Lacks, cert_fields, split_fields-cert_plain}
use ran_online.Strings.{text_to_field}
use ran_online.AuthServer.{
  CertRequest, CertResult, is_session, max_ip_length, server_name_length, auth_data_length,
  g_auth_head, g_auth_info, cert_answer, cert_plain, split_fields,
}

-- No character of the text is the zero that ends a C string.
abbrev pub IsText : List ℕ → Type 0
IsText = All (λ (c : ℕ). 0 < c)

hex_encode-IsText : (bytes : List ℕ) → IsText (hex_encode bytes)
unfolding hex_encode hex_digit
hex_encode-IsText [] = record {}
hex_encode-IsText (b ∷ bytes) = (ground arith, (ground arith, hex_encode-IsText bytes))

until_zero-append : (s rest : List ℕ) → IsText s → until_zero (s ++ (0 ∷ rest)) ≡ s
unfolding until_zero
until_zero-append [] rest h = refl
until_zero-append (c ∷ s) rest (p, h) =
    let e : (c == 0) ≡ false = ground arith in rw (e, until_zero-append s rest h) refl

pub until_zero-text : (s : List ℕ) → IsText s → until_zero s ≡ s
unfolding until_zero
until_zero-text [] h = refl
until_zero-text (c ∷ s) (p, h) =
    let e : (c == 0) ≡ false = ground arith in rw (e, until_zero-text s h) refl

pub length-text_to_field : (n : ℕ) (s : List ℕ) → length (text_to_field n s) ≡ n + 1
unfolding text_to_field
length-text_to_field n s =
    let kept = take n (until_zero s) in
    omega (
      arith,
      length-append kept (replicate (n + 1 - length kept) 0),
      length-replicate {A = ℕ} (n + 1 - length kept) 0,
      length-take n (until_zero s),
    )

-- A field gives its text back to a reader who stops at the first zero, whatever stands behind it.
pub until_zero-text_to_field :
    (n : ℕ) (s rest : List ℕ) → IsText s → length s ≤ n → until_zero (text_to_field n s ++ rest) ≡ s
unfolding text_to_field
until_zero-text_to_field n s rest h short =
    let e : n + 1 - length s ≡ suc (n - length s) = omega arith in
    rw
      (
        until_zero-text s h,
        take-all n s short,
        e,
        append_assoc s (replicate (suc (n - length s)) 0) rest,
      )
      (until_zero-append s (replicate (n - length s) 0 ++ rest) h)

length-g_auth_head : (req : CertRequest) (res : CertResult) → length (g_auth_head req res) ≡ 91
unfolding g_auth_head write_le32
length-g_auth_head req res =
    let session_id = if is_session req.server_type then res.session_svr_id else pos 0 in
    let behind : List ℕ =
      replicate 3 0
      ++ (write_int req.port ++ (write_int session_id ++ replicate (server_name_length + 1) 0)) in
    let ip = text_to_field max_ip_length req.ip in
    ap (λ (n : ℕ). suc (suc (suc (suc (suc (suc (suc (suc n))))))))
      (length-append ip behind ∙ ap (λ (n : ℕ). n + 62) (length-text_to_field max_ip_length req.ip))

pub encrypt_auth_data-IsText : (m : Shifts) (p : List ℕ) → IsText (encrypt_auth_data m p)
unfolding encrypt_auth_data
encrypt_auth_data-IsText m p =
    let padded = pad p in
    hex_encode-IsText (encrypt_chain m (key_expand m key_str) (length padded / 8) initial_iv padded)

-- Where the undefined shifts are harmless and the certified text has at most 247 bytes, a receiver
-- who takes `szAuthData` out of the answer up to its first zero and decrypts it has that text: the
-- field does not cut it, and nothing that stands in front of it or behind it in the struct reaches
-- it.
pub decrypt-cert_answer :
    (m : Shifts)
    → IsHarmless m
    → (req : CertRequest) (res : CertResult) → IsBytes (cert_plain req res)
    → length (cert_plain req res) ≤ 247
    → decrypt_auth_data m (until_zero (drop 91 (cert_answer m req res))) ≡ cert_plain req res
unfolding cert_answer g_auth_info
decrypt-cert_answer m ok req res bytes short =
    let p = cert_plain req res in
    let text = encrypt_auth_data m p in
    let tail = text_to_field auth_data_length text ++ replicate 3 0 in
    let fits : length text ≤ 500 = omega (arith, length-encrypt_auth_data m ok p) in
    let cut : drop 91 (g_auth_head req res ++ tail) ≡ tail =
      drop-append_length (g_auth_head req res) tail 91 (sym (length-g_auth_head req res)) in
    let field : until_zero tail ≡ text =
      until_zero-text_to_field 500 text (replicate 3 0) (encrypt_auth_data-IsText m p) fits in
    rw (cut, field) (decrypt-encrypt_auth_data m ok p bytes)

-- A receiver who takes `szAuthData` out of the answer up to its first zero, decrypts it and splits the
-- text at its commas has the six certified fields, where the undefined shifts are harmless, the
-- certified text is of bytes and has 247 of them at most, and neither the address nor the new key has
-- a comma in it.
pub split_fields-cert_answer :
    (m : Shifts)
    → IsHarmless m
    → (req : CertRequest) (res : CertResult) → IsBytes (cert_plain req res)
    → length (cert_plain req res) ≤ 247
    → Lacks 0x2c req.ip
    → Lacks 0x2c res.new_uniq_key
    → split_fields (decrypt_auth_data m (until_zero (drop 91 (cert_answer m req res)))) 0x2c
      ≡ cert_fields req res
unfolding cert_fields
split_fields-cert_answer m ok req res bytes short ip key =
    ap (λ (text : List ℕ). split_fields text 0x2c) (decrypt-cert_answer m ok req res bytes short)
    ∙ split_fields-cert_plain req res ip key
