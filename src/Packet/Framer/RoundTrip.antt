-- ===== src/Packet/Framer/RoundTrip.antt =====
-- EncodeMessage against the framer: what one side frames, the other side cuts out again.
use ran_online.Base.{
  ℕ, zero, suc, ◌+◌, ◌^◌, ◌≤◌, ◌<◌, ◌≡◌, ◌≢◌, refl, ap, sym, ◌∙◌, List, [], ◌∷◌, ◌++◌, map,
}
use ran_online.Base.{arith, length, All, length-append, take-append_length, drop-append_length}
use ran_online.Packet.{Message, encode_message, header_size, max_message_size, net_msg_compress}
use ran_online.Packet.Header.{size-encode_message, type-encode_message, length-encode_message}
use ran_online.Packet.Framer.{sound, nested, frame_size, message_at}

-- A message as the sending side has it: its type and its payload.
pub record Outgoing : Type 0 where
  pub out_type : ℕ
  pub out_payload : List ℕ

abbrev pub encoded : Outgoing → List ℕ
encoded m = encode_message m.out_type m.out_payload

abbrev pub encode_all : List Outgoing → List ℕ
encode_all [] = []
encode_all (m ∷ ms) = encoded m ++ encode_all ms

-- The message that the receiving side should get for it.
abbrev pub received : Outgoing → Message
received m = record { type = m.out_type; client_id = 0; bytes = encoded m }

-- The fields fit their 32 bits.
pub record IsWord (m : Outgoing) : Type 0 where
  pub type_fits : m.out_type < 2 ^ 32
  pub size_fits : length m.out_payload + header_size < 2 ^ 32

-- Not an envelope, and no larger than the largest frame.
pub record IsPlain (m : Outgoing) : Type 0 where
  pub word : IsWord m
  pub not_envelope : m.out_type ≢ net_msg_compress
  pub frame_fits : header_size + length m.out_payload ≤ max_message_size

module _ (m : Outgoing) (rest : List ℕ) (w : IsWord m) where
  size_lem : frame_size (encoded m ++ rest) ≡ header_size + length m.out_payload
  size_lem = size-encode_message m.out_type m.out_payload rest w.size_fits

  length_lem : header_size + length m.out_payload ≡ length (encoded m)
  length_lem = sym (length-encode_message m.out_type m.out_payload)

  message_at-encoded :
      message_at (header_size + length m.out_payload) (encoded m ++ rest) ≡ received m
  message_at-encoded = rw (
    type-encode_message m.out_type m.out_payload rest w.size_fits w.type_fits,
    take-append_length (encoded m) rest _ length_lem,
  )

-- The loop inside an envelope returns just the messages of the batch, of whatever types.
pub nested-encode_all :
    (ms : List Outgoing) (fuel : ℕ)
    → All IsWord ms
    → length (encode_all ms) ≤ fuel
    → nested fuel (encode_all ms) ≡ sound (map received ms)
unfolding nested
nested-encode_all [] zero w h = refl
nested-encode_all [] (suc fuel) w h = refl
nested-encode_all (m ∷ ms) zero w h = absurd (
    omega (
      arith,
      length-append (encoded m) (encode_all ms),
      length-encode_message m.out_type m.out_payload,
    ))
nested-encode_all (m ∷ ms) (suc fuel) w h =
    let rest = encode_all ms in
    let whole : length (encoded m ++ rest) ≡ header_size + length m.out_payload + length rest =
      length-append (encoded m) rest
      ∙ ap (λ (t : ℕ). t + length rest) (length-encode_message m.out_type m.out_payload) in
    rw
      (
        size_lem m rest w.0,
        message_at-encoded m rest w.0,
        drop-append_length (encoded m) rest _ (length_lem m rest w.0),
        nested-encode_all ms fuel w.1 (omega arith),
        whole,
      )
      (ground arith)
