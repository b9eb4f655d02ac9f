-- ===== src/AgentServer/Wire.antt =====
-- The sizes of the answers of servers/agentserver/agent_server_msg.h.
use ran_online.Base.{
  ℕ, ◌-◌, ◌*◌, ◌≡◌, refl, List, [], ◌∷◌, ◌++◌, arith, length, length-append, length-replicate,
  length-take, take, replicate, min,
}
use ran_online.Base.Int.{ℤ}
use ran_online.Packet.{write_le32}
use ran_online.Packet.Header.{length-write_le32}
use ran_online.AgentServer.{
  login_feedback, cha_bainfo, passcheck_feedback, write_le16, write_int, write_ints,
  max_one_server_char_num,
}

length-write_ints : (ints : List ℤ) → length (write_ints ints) ≡ 4 * length ints
unfolding write_ints write_le32
length-write_ints [] = refl
length-write_ints (i ∷ ints) =
    omega (arith, length-write_ints ints, length-append (write_int i) (write_ints ints))

-- The character list's answer has the 124 bytes of its wire struct, however many characters the
-- database gave.
pub length-cha_bainfo : (char_nums : List ℤ) → length (cha_bainfo char_nums) ≡ 124
unfolding cha_bainfo
length-cha_bainfo char_nums =
    let total = min (length char_nums) max_one_server_char_num in
    let slots = write_ints (take total char_nums) in
    let zeros : List ℕ = replicate (4 * (max_one_server_char_num - total)) 0 in
    omega (
      arith,
      length-append (write_le32 total) (slots ++ zeros),
      length-append slots zeros,
      length-write_le32 total,
      length-write_ints (take total char_nums),
      length-take total char_nums,
      length-replicate {A = ℕ} (4 * (max_one_server_char_num - total)) 0,
    )

pub length-login_feedback : (result cha_remain : ℕ) → length (login_feedback result cha_remain) ≡ 60
unfolding login_feedback write_le32 write_le16
length-login_feedback result cha_remain = refl

pub length-passcheck_feedback :
    (client_id result : ℕ) → length (passcheck_feedback client_id result) ≡ 8
unfolding passcheck_feedback write_le32 write_le16
length-passcheck_feedback client_id result = refl
