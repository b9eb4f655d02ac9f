-- ===== src/AuthCrypto/Rc5/Block.antt =====
-- DecryptBlock undoes EncryptBlock, in servers/authserver/auth_crypto.cpp.
use ran_online.Base.{
  ℕ, zero, suc, ◌+◌, ◌*◌, ◌^◌, ◌<◌, ◌≡◌, ap, sym, ◌∙◌, bit_xor, refl, List, [], ◌++◌, length,
  get_or, drop, arith, IsByte, IsBytes, drop-append_length, All-append, append-nil, take-all,
  All-drop, length-drop, take-append-drop,
}
use ran_online.Base.Bits.{bit_xor_undo, bit_xor_comm, bit_xor-lt}
use ran_online.Packet.{read_le32, write_le32}
use ran_online.Packet.Header.{
  read_le32-write_le32, length-write_le32, write_le32-IsBytes, write_le32-read_le32, read_le32-lt,
}
use ran_online.AuthCrypto.Rc5.{
  Shifts, IsHarmless, rotl, rotr, add_word, sub_word, encrypt_round, encrypt_rounds, decrypt_round,
  decrypt_rounds, encrypt_block, decrypt_block,
}
use ran_online.AuthCrypto.Rc5.Rotations.{rotr-rotl, rotl-lt}

sub_word-add_word : (v k : ℕ) → v < 2 ^ 32 → sub_word (add_word v k) k ≡ v
sub_word-add_word v k h = omega arith

abbrev AreWords : ℕ × ℕ → Type 0
AreWords (a, b) = (a < 2 ^ 32) × (b < 2 ^ 32)

read_word : (v : ℕ) → v < 2 ^ 32 → read_le32 (write_le32 v) ≡ v
read_word v h = ap read_le32 (sym (append-nil (write_le32 v))) ∙ read_le32-write_le32 v [] h

module _ (m : Shifts) (ok : IsHarmless m) (table : List ℕ) where
  -- One half of a round: `v` is mixed with the other word `w`, and comes back.
  undo_half :
      (v w k : ℕ)
      → v < 2 ^ 32
      → w < 2 ^ 32
      → bit_xor (rotr m (sub_word (add_word (rotl m (bit_xor v w) w) k) k) w) w ≡ v
  undo_half v w k hv hw =
      let mixed = bit_xor v w in
      let mixed_fits : mixed < 2 ^ 32 = bit_xor-lt 32 v w hv hw in
      rw
        (
          sub_word-add_word (rotl m mixed w) k (rotl-lt m ok mixed w mixed_fits),
          rotr-rotl m ok mixed w mixed_fits,
        )
        (bit_xor_undo v w)

  decrypt_round-encrypt_round :
      (i : ℕ) (st : ℕ × ℕ)
      → AreWords st
      → decrypt_round m table (suc i) (encrypt_round m table i st) ≡ st
  unfolding decrypt_round encrypt_round
  decrypt_round-encrypt_round i (a, b) (ha, hb) =
      let e0 : 2 * suc i + 0 ≡ 2 * i + 2 = omega arith in
      let e1 : 2 * suc i + 1 ≡ 2 * i + 3 = omega arith in
      let k2 = get_or table (2 * i + 2) 0 in
      let k3 = get_or table (2 * i + 3) 0 in
      let a2 = add_word (rotl m (bit_xor a b) b) k2 in
      let undo_b : bit_xor (rotr m (sub_word (add_word (rotl m (bit_xor a2 b) a2) k3) k3) a2) a2
          ≡ b =
        rw (bit_xor_comm a2 b) (undo_half b a2 k3 hb (omega arith)) in
      rw (e0, e1, undo_b, undo_half a b k2 ha hb) refl

  encrypt_round-AreWords : (i : ℕ) (st : ℕ × ℕ) → AreWords (encrypt_round m table i st)
  unfolding encrypt_round
  encrypt_round-AreWords i (a, b) = (omega arith, omega arith)

  decrypt_rounds-encrypt_rounds :
      (n i : ℕ) (st : ℕ × ℕ)
      → AreWords st
      → decrypt_rounds m table (n + i) (encrypt_rounds m table n i st) ≡ decrypt_rounds m table i st
  unfolding decrypt_rounds encrypt_rounds
  decrypt_rounds-encrypt_rounds zero i st h =
      let e : zero + i ≡ i = omega arith in ap (λ (k : ℕ). decrypt_rounds m table k st) e
  decrypt_rounds-encrypt_rounds (suc n) i st h =
      let e : suc n + i ≡ n + suc i = omega arith in
      rw e (
        decrypt_rounds-encrypt_rounds n (suc i) (encrypt_round m table i st)
          (encrypt_round-AreWords i st)
        ∙ ap (decrypt_rounds m table i) (decrypt_round-encrypt_round i st h))

  encrypt_rounds-AreWords :
      (n i : ℕ) (st : ℕ × ℕ) → AreWords st → AreWords (encrypt_rounds m table n i st)
  unfolding encrypt_rounds
  encrypt_rounds-AreWords zero i st h = h
  encrypt_rounds-AreWords (suc n) i st h =
      encrypt_rounds-AreWords n (suc i) (encrypt_round m table i st) (encrypt_round-AreWords i st)

  add_word-lt : (a b : ℕ) → add_word a b < 2 ^ 32
  add_word-lt a b = omega arith

  -- A block of two words, read again.
  read_words :
      (st : ℕ × ℕ)
      → AreWords st
      → (
        read_le32 (write_le32 st.0 ++ write_le32 st.1),
        read_le32 (drop 4 (write_le32 st.0 ++ write_le32 st.1)),
      )
        ≡ st
  read_words (a, b) (ha, hb) =
      let second : read_le32 (drop 4 (write_le32 a ++ write_le32 b)) ≡ b =
        rw (drop-append_length (write_le32 a) (write_le32 b) 4 (sym (length-write_le32 a)))
          (read_word b hb) in
      rw (second, read_le32-write_le32 a (write_le32 b) ha) refl

  -- With any table of round keys, DecryptBlock gives back every block of eight bytes that
  -- EncryptBlock took, where the undefined shifts are harmless.
  pub decrypt_block-encrypt_block :
      (block : List ℕ)
      → IsBytes block
      → length block ≡ 8
      → decrypt_block m table (encrypt_block m table block) ≡ block
  unfolding decrypt_block encrypt_block decrypt_rounds
  decrypt_block-encrypt_block block bytes long =
      let bytes2 = All-drop IsByte 4 block bytes in
      let long2 = length-drop 4 block in
      let a = read_le32 block in
      let b = read_le32 (drop 4 block) in
      let st : ℕ × ℕ = (add_word a (get_or table 0 0), add_word b (get_or table 1 0)) in
      let e : decrypt_rounds m table (16 + 0) (encrypt_rounds m table 16 0 st) ≡ st =
        decrypt_rounds-encrypt_rounds 16 0 st (add_word-lt a _, add_word-lt b _) in
      rw
        (
          read_words (encrypt_rounds m table 16 0 st)
              (encrypt_rounds-AreWords 16 0 st (add_word-lt a _, add_word-lt b _)),
          e,
        )
        (rw
          (
            sub_word-add_word a (get_or table 0 0) (read_le32-lt block bytes (omega arith)),
            sub_word-add_word b (get_or table 1 0)
                (read_le32-lt (drop 4 block) bytes2 (omega arith)),
            write_le32-read_le32 block bytes (omega arith),
            write_le32-read_le32 (drop 4 block) bytes2 (omega arith),
            take-all 4 (drop 4 block) (omega arith),
          )
          (take-append-drop 4 block))

  pub length-encrypt_block : (block : List ℕ) → length (encrypt_block m table block) ≡ 8
  unfolding encrypt_block write_le32
  length-encrypt_block block = refl

  pub encrypt_block-IsBytes : (block : List ℕ) → IsBytes (encrypt_block m table block)
  unfolding encrypt_block
  encrypt_block-IsBytes block = All-append IsByte _ _ (write_le32-IsBytes _) (write_le32-IsBytes _)
