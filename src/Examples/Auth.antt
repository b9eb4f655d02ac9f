-- ===== src/Examples/Auth.antt =====
-- A session server that is certified.
use ran_online.Base.{ℕ, ◌≤◌, ◌≡◌, refl, List, true, arith, length, drop, codes, IsBytes}
use ran_online.Base.Int.{pos}
use ran_online.AuthCrypto.Cbc.{decrypt_auth_data}
use ran_online.AgentServer.{until_zero}
use ran_online.Strings.{to_string, decimal, atoi}
use ran_online.AuthServer.{CertRequest, CertResult, cert_plain, cert_answer, split_fields}
use ran_online.AuthServer.Fields.{Lacks, cert_fields}
use ran_online.AuthServer.Answer.{split_fields-cert_answer}
use ran_online.Examples.Crypto.{masked, masked-IsHarmless}

abbrev session_req : CertRequest
session_req = record {
  country = pos 1;
  server_type = pos 2;
  ip = codes "10.0.0.7";
  port = pos 5001;
  uniq_key = codes "old";
  is_session_svr = pos 1;
}

abbrev session_res : CertResult
session_res = record {
  ok = true;
  certification = pos 1;
  session_svr_id = pos 3;
  new_uniq_key = codes "new";
}

abbrev session_text : List ℕ
session_text = codes "1,2,10.0.0.7,5001,new,1"

session_text-IsBytes : IsBytes session_text
session_text-IsBytes = omega arith

cert_plain_test : cert_plain session_req session_res ≡ session_text
unfolding cert_plain to_string decimal
cert_plain_test = refl

plain-IsBytes : IsBytes (cert_plain session_req session_res)
plain-IsBytes = rw cert_plain_test session_text-IsBytes

plain-short : length (cert_plain session_req session_res) ≤ 247
plain-short = rw cert_plain_test (omega arith)

ip-Lacks : Lacks 0x2c (codes "10.0.0.7")
ip-Lacks = omega arith

key-Lacks : Lacks 0x2c (codes "new")
key-Lacks = omega arith

split_fields-cert_answer_example :
    split_fields
      (decrypt_auth_data masked (until_zero (drop 91 (cert_answer masked session_req session_res))))
      0x2c
    ≡ cert_fields session_req session_res
split_fields-cert_answer_example =
    split_fields-cert_answer masked masked-IsHarmless session_req session_res plain-IsBytes
      plain-short ip-Lacks key-Lacks

atoi_test : atoi (codes " -12x") ≡ atoi (codes "-12")
unfolding atoi
atoi_test = refl
