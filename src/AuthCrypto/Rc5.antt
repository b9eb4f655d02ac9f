-- ===== src/AuthCrypto/Rc5.antt =====
-- The block cipher of servers/authserver/auth_crypto.cpp: rotations, key expansion, and the
-- encryption and decryption of one block of eight bytes. Words are numbers below 2 ^ 32.
pub mod Rotations
pub mod Block
use ran_online.Base.{
  ℕ, zero, suc, ◌+◌, ◌-◌, ◌*◌, ◌/◌, ◌%◌, ◌^◌, ◌<◌, ◌≡◌, List, [], ◌∷◌, ◌++◌, bit_and, bit_or,
  bit_xor, max,
}
use ran_online.Base.{length, get_or, set, replicate, drop, if◌then◌else◌, ◌==◌}
use ran_online.Packet.{read_le32, write_le32}

-- `val >> 32` and `val << 32`: undefined in C++, so what the compiled code makes of them is a
-- parameter. The rotations reach them where the count is a multiple of 32.
pub record Shifts : Type 0 where
  pub right_32 : ℕ → ℕ
  pub left_32 : ℕ → ℕ

-- The result is 0, or the word itself as on a machine that masks the count, or any other word
-- without effect when `|` joins it to the unshifted one.
abbrev pub IsHarmless : Shifts → Type 0
IsHarmless m = (v : ℕ) → v < 2 ^ 32 → (bit_or v (m.right_32 v) ≡ v) × (bit_or v (m.left_32 v) ≡ v)

unfoldable pub rotl : Shifts → ℕ → ℕ → ℕ
rotl m val shift =
    let s = bit_and shift 31 in
    bit_or (val * 2 ^ s % 2 ^ 32) (if s == 0 then m.right_32 val else val / 2 ^ (32 - s))

unfoldable pub rotr : Shifts → ℕ → ℕ → ℕ
rotr m val shift =
    let s = bit_and shift 31 in
    bit_or (val / 2 ^ s) (if s == 0 then m.left_32 val else val * 2 ^ (32 - s) % 2 ^ 32)

abbrev pub add_word : ℕ → ℕ → ℕ
add_word a b = (a + b) % 2 ^ 32

abbrev pub sub_word : ℕ → ℕ → ℕ
sub_word a b = (a + (2 ^ 32 - b % 2 ^ 32)) % 2 ^ 32

abbrev pub rounds : ℕ
rounds = 16

abbrev pub magic_p : ℕ
magic_p = 0xb7e15163

abbrev pub magic_q : ℕ
magic_q = 0x9e3779b9

-- `n` entries from `v` on, each `magic_q` more than the one before.
fill_table : ℕ → ℕ → List ℕ
fill_table zero v = []
fill_table (suc n) v = v ∷ fill_table n (add_word v magic_q)

-- The bytes of the key from index `i` on, into the words `l`.
load_key : List ℕ → ℕ → List ℕ → List ℕ
load_key [] i l = l
load_key (k ∷ key) i l =
    load_key key (suc i) (set l (i / 4) (bit_or (get_or l (i / 4) 0) (k * 2 ^ (8 * (i % 4)))))

pub record Mix : Type 0 where
  pub s_table : List ℕ
  pub l : List ℕ
  pub a : ℕ
  pub b : ℕ
  pub i : ℕ
  pub j : ℕ

mix_step : Shifts → Mix → Mix
mix_step m st =
    let a = rotl m (add_word (add_word (get_or st.s_table st.i 0) st.a) st.b) 3 in
    let b = rotl m (add_word (add_word (get_or st.l st.j 0) a) st.b) (add_word a st.b) in
    record {
      s_table = set st.s_table st.i a;
      l = set st.l st.j b;
      a = a;
      b = b;
      i = (st.i + 1) % length st.s_table;
      j = (st.j + 1) % length st.l;
    }

mix : Shifts → ℕ → Mix → Mix
mix m zero st = st
mix m (suc n) st = mix m n (mix_step m st)

unfoldable pub key_expand : Shifts → List ℕ → List ℕ
unfolding fill_table load_key mix_step mix
key_expand m key =
    let size = 2 * (rounds + 1) in
    let c = max ((length key + 3) / 4) 1 in
    let start : Mix = record {
      s_table = fill_table size magic_p;
      l = load_key key 0 (replicate c 0);
      a = 0;
      b = 0;
      i = 0;
      j = 0;
    } in
    (mix m (3 * max size c) start).s_table

-- The two words of a block under way: a, b.
unfoldable pub encrypt_round : Shifts → List ℕ → ℕ → ℕ × ℕ → ℕ × ℕ
encrypt_round m s_table i (a, b) =
    let a2 = add_word (rotl m (bit_xor a b) b) (get_or s_table (2 * i + 2) 0) in
    (a2, add_word (rotl m (bit_xor a2 b) a2) (get_or s_table (2 * i + 3) 0))

-- The next `n` rounds, from round `i` on.
unfoldable pub encrypt_rounds : Shifts → List ℕ → ℕ → ℕ → ℕ × ℕ → ℕ × ℕ
encrypt_rounds m s_table zero i st = st
encrypt_rounds m s_table (suc n) i st =
    encrypt_rounds m s_table n (suc i) (encrypt_round m s_table i st)

-- The loop's body with `i`, one more than the round it undoes.
unfoldable pub decrypt_round : Shifts → List ℕ → ℕ → ℕ × ℕ → ℕ × ℕ
decrypt_round m s_table i (a, b) =
    let b2 = bit_xor (rotr m (sub_word b (get_or s_table (2 * i + 1) 0)) a) a in
    (bit_xor (rotr m (sub_word a (get_or s_table (2 * i + 0) 0)) b2) b2, b2)

unfoldable pub decrypt_rounds : Shifts → List ℕ → ℕ → ℕ × ℕ → ℕ × ℕ
decrypt_rounds m s_table zero st = st
decrypt_rounds m s_table (suc i) st =
    decrypt_rounds m s_table i (decrypt_round m s_table (suc i) st)

unfoldable pub encrypt_block : Shifts → List ℕ → List ℕ → List ℕ
encrypt_block m s_table in_block =
    let a = add_word (read_le32 in_block) (get_or s_table 0 0) in
    let b = add_word (read_le32 (drop 4 in_block)) (get_or s_table 1 0) in
    let r = encrypt_rounds m s_table rounds 0 (a, b) in write_le32 r.0 ++ write_le32 r.1

unfoldable pub decrypt_block : Shifts → List ℕ → List ℕ → List ℕ
decrypt_block m s_table in_block =
    let r = decrypt_rounds m s_table rounds (read_le32 in_block, read_le32 (drop 4 in_block)) in
    write_le32 (sub_word r.0 (get_or s_table 0 0)) ++ write_le32 (sub_word r.1 (get_or s_table 1 0))
