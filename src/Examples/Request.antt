-- ===== src/Examples/Request.antt =====
-- A certification request and a result set at concrete inputs.
use ran_online.Base.{
  ℕ, ◌≤◌, ◌≡◌, refl, List, [], ◌∷◌, ◌++◌, true, some, none, arith, length, replicate, codes,
  IsBytes, length-append,
}
use ran_online.Base.Int.{pos}
use ran_online.Packet.{Message, payload, payload_size}
use ran_online.Session.{new_session}
use ran_online.Strings.{text_to_field, to_string, decimal}
use ran_online.AuthCrypto.Cbc.{encrypt_auth_data}
use ran_online.Odbc.{Answer, Datum}
use ran_online.AgentServer.Database.{process_char_list}
use ran_online.AgentServer.Database.Rows.{positive_numbers, column_of, process_char_list-all}
use ran_online.AuthServer.{AuthServer, handle_cert, answer_cert}
use ran_online.AuthServer.Fields.{Lacks, join_fields}
use ran_online.AuthServer.Answer.{length-text_to_field}
use ran_online.AuthServer.Request.{request_plain, meant, handle_cert-request}
use ran_online.Examples.Library.{stored}
use ran_online.Examples.Crypto.{masked, masked-IsHarmless}
use ran_online.Examples.Agent.{failing, fresh_db}

-- A field server at 10.0.0.7 asks with the key `old`.
abbrev ip : List ℕ
ip = codes "10.0.0.7"

abbrev key : List ℕ
key = codes "old"

abbrev asked : List ℕ
asked = request_plain (pos 1) (pos 3) ip (pos 5001) key

asked_test : asked ≡ codes "1,3,10.0.0.7,5001,old"
unfolding request_plain join_fields to_string decimal
asked_test = refl

text-IsBytes : IsBytes (codes "1,3,10.0.0.7,5001,old")
text-IsBytes = omega arith

asked-IsBytes : IsBytes asked
asked-IsBytes = rw asked_test text-IsBytes

asked-short : length asked ≤ 247
asked-short = rw asked_test (omega arith)

ip-Lacks : Lacks 0x2c (codes "10.0.0.7")
ip-Lacks = omega arith

key-Lacks : Lacks 0x2c (codes "old")
key-Lacks = omega arith

abbrev field : List ℕ
field = text_to_field 500 (encrypt_auth_data masked asked)

abbrev cert_msg : Message
cert_msg = record {
  type = 204;
  client_id = 1;
  bytes = replicate 8 0 ++ (replicate 91 0 ++ (field ++ replicate 3 0));
}

cert_msg-long : 595 ≤ payload_size cert_msg
unfolding payload_size
cert_msg-long = ground (
  arith,
  length-append field (replicate 3 0),
  length-text_to_field 500 (encrypt_auth_data masked asked),
)

abbrev auth : AuthServer
auth = record {
  db_conn = [];
  db = fresh_db;
  db_ready = true;
  accepted = 1;
  updates = 0;
  processed = 0;
  next_client_id = 1;
  recv_msgs = record { front = []; back = [] };
  sessions = (1, new_session 1) ∷ [];
}

handle_cert-request_example :
    handle_cert masked stored failing cert_msg (new_session 1) auth
    ≡ answer_cert masked stored failing 1
        (new_session 1)
        (some (meant (pos 1) (pos 3) ip (pos 5001) key))
        auth
unfolding payload
handle_cert-request_example =
    handle_cert-request (pos 1) (pos 3) ip (pos 5001) key (omega arith) (omega arith) (omega arith)
      ip-Lacks key-Lacks masked masked-IsHarmless stored failing cert_msg (new_session 1) auth
      (replicate 91 0) (replicate 3 0) refl refl cert_msg-long asked-IsBytes asked-short

-- Two characters, and a row whose number is not positive.
abbrev number : ℕ → Datum
number n = record { as_text = none; as_int = some (pos n); as_bigint = none }

abbrev three_rows : Answer
three_rows = record {
  alloc_ok = true;
  prepare_ok = true;
  bind_ok = true;
  execute_ok = true;
  columns = codes "ChaNum" ∷ [];
  rows = (number 7 ∷ []) ∷ (number 0 ∷ []) ∷ (number 9 ∷ []) ∷ [];
  written = λ n. none;
}

process_char_list-all_example :
    ((process_char_list (λ sql params. three_rows) (pos 5) fresh_db).1
      ≡ positive_numbers (column_of (codes "ChaNum") three_rows.columns) three_rows.rows)
    × ((process_char_list (λ sql params. three_rows) (pos 5) fresh_db).0.eof ≡ true)
process_char_list-all_example =
    process_char_list-all (λ sql params. three_rows) (pos 5) fresh_db three_rows refl refl
      (record { allocated = refl; prepared = refl; bound = refl; executed = refl })
