-- ===== src/Packet/Framer/Envelopes.antt =====
-- How the framer opens the NET_COMPRESS envelope that the sending side builds.
use ran_online.Base.{ℕ, zero, suc, ◌+◌, ◌-◌, ◌≤◌, ◌<◌, ◌≡◌, refl, ap, ◌∙◌, List, ◌∷◌, ◌++◌}
use ran_online.Base.{
  arith, length, get_or, drop, take, take-append_length, drop-append_length, length-append,
}
use ran_online.MinLzo.{Lzo, success, lzo_decompress}
use ran_online.Packet.{Message, encode_message, write_le32, max_message_size, net_msg_compress}
use ran_online.Packet.Header.{size-encode_message, type-encode_message, length-encode_message}
use ran_online.Packet.Framer.{
  push, sound, scan, nested, open_frame, decompress_buffer_size, frame_size,
}
use ran_online.Packet.Framer.Steps.{scan-whole}
use ran_online.Packet.Framer.Fuel.{scan_fuel}

abbrev pub enveloped : ℕ → List ℕ → List ℕ
enveloped flag bytes = encode_message net_msg_compress (flag ∷ 0 ∷ 0 ∷ 0 ∷ bytes)

module _ (lzo : Lzo) (bytes rest : List ℕ) (fits : 12 + length bytes ≤ max_message_size) where
  taken :
      (flag : ℕ) → take (12 + length bytes) (enveloped flag bytes ++ rest) ≡ enveloped flag bytes
  taken flag =
      take-append_length (enveloped flag bytes) rest _
        (omega (arith, length-encode_message net_msg_compress (flag ∷ 0 ∷ 0 ∷ 0 ∷ bytes)))

  drop_header : (flag : ℕ) → drop 12 (enveloped flag bytes) ≡ bytes
  unfolding encode_message write_le32
  drop_header flag = refl

  flag_lem : (flag : ℕ) → get_or (enveloped flag bytes ++ rest) 8 0 ≡ flag
  unfolding encode_message write_le32
  flag_lem flag = refl

  size_lem : (flag : ℕ) → frame_size (enveloped flag bytes ++ rest) ≡ 12 + length bytes
  size_lem flag =
      size-encode_message net_msg_compress (flag ∷ 0 ∷ 0 ∷ 0 ∷ bytes) rest (omega arith)
      ∙ omega arith

  pub open_plain :
      open_frame lzo (12 + length bytes) (enveloped 0 bytes ++ rest) ≡ nested (length bytes) bytes
  unfolding open_frame
  open_plain =
      let left : 12 + length bytes - 12 ≡ length bytes = omega arith in
      rw
        (
          type-encode_message net_msg_compress (0 ∷ 0 ∷ 0 ∷ 0 ∷ bytes) rest (omega arith)
              (omega arith),
          taken 0,
          drop_header 0,
          flag_lem 0,
          left,
        )
        (ground arith)

  pub open_compressed :
      {out : List ℕ}
      → lzo_decompress lzo bytes decompress_buffer_size ≡ (success, out)
      → open_frame lzo (12 + length bytes) (enveloped 1 bytes ++ rest) ≡ nested (length out) out
  unfolding open_frame
  open_compressed e =
      rw
        (
          type-encode_message net_msg_compress (1 ∷ 0 ∷ 0 ∷ 0 ∷ bytes) rest (omega arith)
              (omega arith),
          taken 1,
          drop_header 1,
          flag_lem 1,
          e,
        )
        (ground arith)

  -- An envelope in front of the stream yields its messages, and the scan goes on behind it.
  pub scan-enveloped :
      (flag fuel : ℕ) {ms : List Message}
      → open_frame lzo (12 + length bytes) (enveloped flag bytes ++ rest) ≡ sound ms
      → length (enveloped flag bytes ++ rest) < fuel
      → scan lzo fuel (enveloped flag bytes ++ rest) ≡ push ms (scan lzo fuel rest)
  scan-enveloped flag zero e h = absurd (omega arith)
  scan-enveloped flag (suc fuel) {ms} e h =
      let size = size_lem flag in
      let len : length (enveloped flag bytes ++ rest) ≡ 12 + length bytes + length rest = omega (
        arith,
        length-append (enveloped flag bytes) rest,
        length-encode_message net_msg_compress (flag ∷ 0 ∷ 0 ∷ 0 ∷ bytes),
      ) in
      scan-whole lzo fuel (enveloped flag bytes ++ rest) (rw size (omega arith)) (rw size fits)
        (rw (size, len) (omega arith))
      ∙ rw
          (
            size,
            e,
            drop-append_length (enveloped flag bytes) rest (12 + length bytes)
                (omega (arith, length-encode_message net_msg_compress (flag ∷ 0 ∷ 0 ∷ 0 ∷ bytes))),
          )
          (ap (push ms) (scan_fuel lzo fuel (suc fuel) rest (omega arith) (omega arith)))
