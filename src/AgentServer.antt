-- ===== src/AgentServer.antt =====
-- servers/agentserver/agent_server.{h,cpp} and agent_server_msg.h: the gateway's state, the wire
-- structs as offsets and sizes, and its answers. Logging is not modelled.
pub mod Database
pub mod Dispatch
pub mod Lifecycle
pub mod Hooks
pub mod Wire
pub mod Gateway
use ran_online.Base.{
  ℕ, zero, suc, ◌+◌, ◌-◌, ◌*◌, ◌/◌, ◌%◌, ◌^◌, List, [], ◌∷◌, ◌++◌, Bool, true, false, bit_and, min,
}
use ran_online.Base.{length, take, drop, replicate, if◌then◌else◌, ◌==◌}
use ran_online.Base.Int.{ℤ, pos, to_word, of_word}
use ran_online.Packet.{write_le32, read_le32, encode_message}
use ran_online.MsgManager.{MsgManager}
use ran_online.Session.{Session}
use ran_online.Odbc.{OdbcDb}

-- `use_2nd_pass`: 0 none, 1 verify the existing PIN, 2 set a new one.
pub record LoginSession : Type 0 where
  pub user_num : ℤ
  pub user_type : ℤ
  pub use_2nd_pass : ℕ

pub record AgentServer : Type 0 where
  pub db_conn : List ℕ
  pub db : OdbcDb
  pub db_ready : Bool
  pub accepted : ℕ
  pub updates : ℕ
  pub processed : ℕ
  pub recv_msgs : MsgManager
  pub next_client_id : ℕ
  pub sessions : List (ℕ × Session)
  pub login_sessions : List (ℕ × LoginSession)

-- Message types.
abbrev pub idn_net_msg_login : ℕ
idn_net_msg_login = 233

abbrev pub net_msg_login_fb : ℕ
net_msg_login_fb = 223

abbrev pub net_msg_req_cha_binfo_ca : ℕ
net_msg_req_cha_binfo_ca = 283

abbrev pub net_msg_req_cha_bainfo : ℕ
net_msg_req_cha_bainfo = 284

abbrev pub net_msg_cha_bainfo_ac : ℕ
net_msg_cha_bainfo_ac = 285

abbrev pub daum_net_msg_passcheck : ℕ
daum_net_msg_passcheck = 238

abbrev pub net_msg_passcheck_fb : ℕ
net_msg_passcheck_fb = 239

abbrev pub net_msg_lobby_charinfo_ac : ℕ
net_msg_lobby_charinfo_ac = 298

abbrev pub net_msg_lobby_charinfo_ac_end : ℕ
net_msg_lobby_charinfo_ac_end = 299

abbrev pub max_one_server_char_num : ℕ
max_one_server_char_num = 30

abbrev pub usr_id_length : ℕ
usr_id_length = 20

abbrev pub md5_max_length : ℕ
md5_max_length = 32

-- EM_LOGIN_FB_SUB: the answers that the code gives.
abbrev pub fb_ok : ℕ
fb_ok = 0

abbrev pub fb_fail : ℕ
fb_fail = 1

abbrev pub fb_system : ℕ
fb_system = 2

abbrev pub fb_dup : ℕ
fb_dup = 4

abbrev pub fb_incorrect : ℕ
fb_incorrect = 5

abbrev pub fb_ip_ban : ℕ
fb_ip_ban = 6

abbrev pub fb_block : ℕ
fb_block = 7

abbrev pub fb_random_pass : ℕ
fb_random_pass = 19

abbrev pub fb_pass_ok : ℕ
fb_pass_ok = 20

abbrev pub fb_betakey : ℕ
fb_betakey = 23

abbrev pub fb_kr_ok_use_pass : ℕ
fb_kr_ok_use_pass = 27

abbrev pub fb_kr_ok_new_pass : ℕ
fb_kr_ok_new_pass = 28

-- The bytes up to the first zero: what `strlen` counts. Where a field has no zero, `strlen` reads
-- on behind it, and the callers keep no more than the field's length.
unfoldable pub until_zero : List ℕ → List ℕ
until_zero [] = []
until_zero (c ∷ s) = let rest = until_zero s in if c == 0 then [] else c ∷ rest

-- A text field at an offset of the frame, of at most `max_length` characters.
unfoldable pub text_field : ℕ → ℕ → List ℕ → List ℕ
text_field offset max_length bytes = take max_length (until_zero (drop offset bytes))

-- An `int32_t` field.
unfoldable pub int_field : ℕ → List ℕ → ℤ
int_field offset bytes = of_word 31 (read_le32 (drop offset bytes))

unfoldable pub write_le16 : ℕ → List ℕ
write_le16 v = bit_and v 0xff ∷ bit_and (v / 2 ^ 8) 0xff ∷ []

abbrev pub write_int : ℤ → List ℕ
write_int i = write_le32 (to_word 32 i)

-- The payload of NET_LOGIN_FEEDBACK_DATA: 60 bytes from `m_Result` on. Fields that the code leaves
-- at 0 are filled with zeros.
unfoldable pub login_feedback : ℕ → ℕ → List ℕ
login_feedback result cha_remain =
    write_le32 result ++ (replicate 20 0 ++ (write_le16 cha_remain ++ replicate 34 0))

unfoldable pub write_ints : List ℤ → List ℕ
write_ints [] = []
write_ints (i ∷ ints) = write_int i ++ write_ints ints

-- The payload of NET_CHA_BAINFO_AC_DATA: the count and 30 slots.
unfoldable pub cha_bainfo : List ℤ → List ℕ
cha_bainfo char_nums =
    let total = min (length char_nums) max_one_server_char_num in
    write_le32 total
    ++ (write_ints (take total char_nums) ++ replicate (4 * (max_one_server_char_num - total)) 0)

-- The payload of NET_PASSCHECK_FEEDBACK_DATA: 8 bytes from `nClient` on, two of them padding.
unfoldable pub passcheck_feedback : ℕ → ℕ → List ℕ
passcheck_feedback client_id result = write_le32 client_id ++ (write_le16 result ++ replicate 2 0)
