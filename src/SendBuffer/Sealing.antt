-- ===== src/SendBuffer/Sealing.antt =====
-- `getSendSize`: the packet is one envelope frame around what was gathered.
use ran_online.Base.{ℕ, ◌+◌, ◌%◌, ◌^◌, ◌≤◌, ◌<◌, ◌≡◌, refl, sym, ◌∙◌, List, [], ◌∷◌, ◌++◌}
use ran_online.MinLzo.Laws.{lzo_compress-bounded}
use ran_online.Base.{
  arith, subst, length, take, drop, length-append, length-take, take-append_length, append_assoc,
}
use ran_online.MinLzo.{
  Lzo, IsLossless, Code, success, error, input_data_error, internal_error, can_not_compress,
  lzo_compress,
}
use ran_online.Packet.{encode_message, write_le32, net_msg_compress, header_size}
use ran_online.Packet.Header.{length-write_le32, length-encode_message}
use ran_online.SendBuffer.{
  SendMsgBuffer, content, IsValid, write_at, get_send_size, seal, net_compress,
  net_data_msg_bufsize, net_compress_size,
}
use ran_online.SendBuffer.Memory.{length-write_at, write_at-zero, drop-write_at}

-- The flag and the body of the envelope for `gathered`: the compressed bytes where LZO made them
-- fewer, else the bytes themselves.
abbrev pub body : List ℕ → Code × List ℕ → ℕ × List ℕ
body gathered (success, out) = (1, out)
body gathered (error, out) = (0, gathered)
body gathered (input_data_error, out) = (0, gathered)
body gathered (internal_error, out) = (0, gathered)
body gathered (can_not_compress, out) = (0, gathered)

abbrev pub envelope_of : ℕ × List ℕ → List ℕ
envelope_of (flag, bytes) = encode_message net_msg_compress (flag ∷ 0 ∷ 0 ∷ 0 ∷ bytes)

abbrev pub envelope : Lzo → List ℕ → List ℕ
envelope lzo gathered = envelope_of (body gathered (lzo_compress lzo gathered))

length-net_compress : (size flag : ℕ) → length (net_compress size flag) ≡ net_compress_size
unfolding net_compress
length-net_compress size flag = omega (
  arith,
  length-append (write_le32 size) (write_le32 net_msg_compress ++ (flag ∷ 0 ∷ 0 ∷ 0 ∷ [])),
  length-append (write_le32 net_msg_compress) (flag ∷ 0 ∷ 0 ∷ 0 ∷ []),
  length-write_le32 size,
  length-write_le32 net_msg_compress,
)

-- The NET_COMPRESS struct and a body are one frame of type 170.
net_compress-append :
    (bytes : List ℕ) (flag : ℕ)
    → length bytes ≤ net_data_msg_bufsize
    → net_compress (net_compress_size + length bytes) flag ++ bytes ≡ envelope_of (flag, bytes)
unfolding net_compress encode_message
net_compress-append bytes flag h =
    let total : (header_size + length (flag ∷ 0 ∷ 0 ∷ 0 ∷ bytes)) % 2 ^ 32
        ≡ net_compress_size + length bytes =
      omega arith in
    rw (
      total,
      append_assoc (write_le32 (net_compress_size + length bytes)),
      append_assoc (write_le32 net_msg_compress),
    )

module _ (sb bytes : List ℕ) (flag : ℕ) (full : length sb ≡ net_data_msg_bufsize) (n : ℕ)
    (len : length bytes ≡ n) (fits : net_compress_size + n ≤ net_data_msg_bufsize) where
  abbrev sealed : List ℕ
  sealed =
      write_at (write_at sb net_compress_size bytes) 0 (net_compress (net_compress_size + n) flag)

  -- Header and body stand at the front of the send buffer.
  packet : take (net_compress_size + n) sealed ≡ envelope_of (flag, bytes)
  packet =
      rw
        (
          ← len,
          write_at-zero (write_at sb net_compress_size bytes)
              (net_compress (net_compress_size + length bytes) flag),
          length-net_compress (net_compress_size + length bytes) flag,
          drop-write_at sb net_compress_size bytes (omega arith),
          sym (
              append_assoc (net_compress (net_compress_size + length bytes) flag) bytes
                (drop (net_compress_size + length bytes) sb)),
          net_compress-append bytes flag (omega arith),
        )
        (take-append_length (envelope_of (flag, bytes)) _ _
          (omega (arith, length-encode_message net_msg_compress (flag ∷ 0 ∷ 0 ∷ 0 ∷ bytes))))

  length-sealed : length sealed ≡ net_data_msg_bufsize
  length-sealed =
      let inner = length-write_at sb net_compress_size bytes (omega arith) in
      length-write_at (write_at sb net_compress_size bytes) 0
        (net_compress (net_compress_size + n) flag)
        (omega (arith, inner, length-net_compress (net_compress_size + n) flag))
      ∙ inner
      ∙ full

-- The result of `getSendSize` on a buffer that holds something.
pub record Sealed (lzo : Lzo) (b : SendMsgBuffer) (r : SendMsgBuffer × ℕ) : Type 0 where
  pub is_packet : take r.1 r.0.send_buffer ≡ envelope lzo (content b)
  pub emptied : r.0.pos ≡ 0
  pub still_valid : IsValid r.0
  pub packet_fits : r.1 ≤ net_data_msg_bufsize
  pub packet_pos : 0 < r.1

module _ (lzo : Lzo) (b : SendMsgBuffer) (v : IsValid b) where
  pub length-content : length (content b) ≡ b.pos
  length-content = omega (arith, length-take b.pos b.buffer, v.buffer_length, v.pos_le)

  -- After a compression that helped, and after one that did not.
  seal_compressed :
      (out : List ℕ)
      → lzo_compress lzo (content b) ≡ (success, out)
      → net_compress_size + length out ≤ net_data_msg_bufsize
      → Sealed lzo b (seal b (success, out))
  unfolding seal
  seal_compressed out e fits = record {
    is_packet = rw e (packet b.send_buffer out 1 v.send_buffer_length (length out) refl fits);
    emptied = refl;
    still_valid = record {
      pos_le = omega arith;
      buffer_length = v.buffer_length;
      send_buffer_length =
          length-sealed b.send_buffer out 1 v.send_buffer_length (length out) refl fits;
    };
    packet_fits = fits;
    packet_pos = omega arith;
  }

  abbrev plain : List ℕ → SendMsgBuffer × ℕ
  plain out = (
    record b {
      send_buffer =
          write_at
            (write_at (write_at b.send_buffer net_compress_size out) net_compress_size (content b))
            0 (net_compress (net_compress_size + b.pos) 0);
      pos = 0;
      count = 0;
    },
    net_compress_size + b.pos,
  )

  seal_plain :
      (r : Code × List ℕ) (out : List ℕ)
      → lzo_compress lzo (content b) ≡ r
      → body (content b) r ≡ (0, content b)
      → net_compress_size + length out ≤ net_data_msg_bufsize
      → Sealed lzo b (plain out)
  seal_plain r out e e' fits =
      let sb : List ℕ = write_at b.send_buffer net_compress_size out in
      let full : length sb ≡ net_data_msg_bufsize =
        length-write_at b.send_buffer net_compress_size out (omega (arith, v.send_buffer_length))
        ∙ v.send_buffer_length in
      let fits' : net_compress_size + b.pos ≤ net_data_msg_bufsize = omega (arith, v.pos_le) in
      record {
        is_packet = rw (e, e') (packet sb (content b) 0 full b.pos length-content fits');
        emptied = refl;
        still_valid = record {
          pos_le = omega arith;
          buffer_length = v.buffer_length;
          send_buffer_length = length-sealed sb (content b) 0 full b.pos length-content fits';
        };
        packet_fits = omega (arith, v.pos_le);
        packet_pos = omega arith;
      }

module _ (lzo : Lzo) (l : IsLossless lzo) (b : SendMsgBuffer) (v : IsValid b) where
  seal-Sealed :
      (r : Code × List ℕ)
      → lzo_compress lzo (content b) ≡ r
      → net_compress_size + length r.1 ≤ net_data_msg_bufsize
      → Sealed lzo b (seal b r)
  unfolding seal
  seal-Sealed (success, out) e fits = seal_compressed lzo b v out e fits
  seal-Sealed (error, out) e fits = seal_plain lzo b v _ out e refl fits
  seal-Sealed (input_data_error, out) e fits = seal_plain lzo b v _ out e refl fits
  seal-Sealed (internal_error, out) e fits = seal_plain lzo b v _ out e refl fits
  seal-Sealed (can_not_compress, out) e fits = seal_plain lzo b v _ out e refl fits

  -- A buffer that holds something is sealed: the first bytes of the send buffer, as many as the
  -- size that is returned, are one NET_COMPRESS frame around the bytes gathered (compressed if
  -- that made them fewer); the buffer is empty afterwards, and no copy leaves an array.
  pub get_send_size-Sealed : 0 < b.pos → Sealed lzo b (get_send_size lzo b)
  get_send_size-Sealed h = subst (Sealed lzo b) (sym holds) (
      seal-Sealed (lzo_compress lzo (content b)) refl
        (omega (arith, lzo_compress-bounded lzo l (content b), length-content lzo b v, v.pos_le)))
    where
      holds : get_send_size lzo b ≡ seal b (lzo_compress lzo (content b))
      holds = unfold get_send_size in ground arith

pub get_send_size_empty : (lzo : Lzo) (b : SendMsgBuffer) → b.pos ≡ 0 → get_send_size lzo b ≡ (b, 0)
unfolding get_send_size
get_send_size_empty lzo b h = ground arith
