-- ===== src/Session/Delivery/Carries.antt =====
-- Packets that the peer's framer turns into given messages, whatever follows them.
use ran_online.Base.{
  ℕ, ◌≤◌, ◌<◌, ◌≡◌, refl, ap, sym, ◌∙◌, List, [], ◌∷◌, ◌++◌, map, append-nil, append_assoc,
}
use ran_online.Base.{arith, length, length-append, All}
use ran_online.MinLzo.{
  Lzo, IsLossless, Code, success, error, input_data_error, internal_error, can_not_compress,
  lzo_compress,
}
use ran_online.MinLzo.Laws.{lzo_decompress-compress}
use ran_online.Packet.Framer.{push, scan, decompress_buffer_size}
use ran_online.Packet.Framer.Chunks.{push-push, push-nil}
use ran_online.Packet.Framer.Stream.{concat}
use ran_online.Packet.Framer.RoundTrip.{Outgoing, IsWord, encode_all, received, nested-encode_all}
use ran_online.Packet.Framer.Envelopes.{enveloped, open_plain, open_compressed, scan-enveloped}
use ran_online.SendBuffer.{net_data_bufsize}
use ran_online.SendBuffer.Sealing.{envelope, envelope_of, body}
use mathlib.Core.List.{map-append}

abbrev pub Carries : Lzo → List (List ℕ) → List Outgoing → Type 0
Carries lzo packets ms =
    (rest : List ℕ) (fuel : ℕ)
    → length (concat packets ++ rest) < fuel
    → scan lzo fuel (concat packets ++ rest) ≡ push (map received ms) (scan lzo fuel rest)

pub concat-append : (ps qs : List (List ℕ)) → concat (ps ++ qs) ≡ concat ps ++ concat qs
concat-append [] qs = refl
concat-append (p ∷ ps) qs = rw (concat-append ps qs) (sym (append_assoc p (concat ps) (concat qs)))

module _ (lzo : Lzo) where
  pub Carries-nil : Carries lzo [] []
  Carries-nil rest fuel h = sym (push-nil _)

  pub Carries-append :
      (ps qs : List (List ℕ)) (ms ns : List Outgoing)
      → Carries lzo ps ms
      → Carries lzo qs ns
      → Carries lzo (ps ++ qs) (ms ++ ns)
  Carries-append ps qs ms ns c d rest fuel h =
      let e : concat (ps ++ qs) ++ rest ≡ concat ps ++ (concat qs ++ rest) =
        rw (concat-append ps qs) (append_assoc (concat ps) (concat qs) rest) in
      let len = ap length e in
      rw
        (
          e,
          c (concat qs ++ rest) fuel (omega (arith, len)),
          d rest fuel (omega (arith, len, length-append (concat ps) (concat qs ++ rest))),
          map-append received ms ns,
        )
        (push-push (map received ms) (map received ns) (scan lzo fuel rest))

  plain-Carries :
      (ms : List Outgoing)
      → All IsWord ms
      → length (encode_all ms) ≤ net_data_bufsize
      → Carries lzo (enveloped 0 (encode_all ms) ∷ []) ms
  plain-Carries ms w h rest fuel f = rw (append-nil (enveloped 0 (encode_all ms))) (
      scan-enveloped lzo (encode_all ms) rest (omega arith) 0 fuel
        (open_plain lzo (encode_all ms) rest (omega arith) ∙ nested-encode_all ms _ w (omega arith))
        (omega (
          arith,
          ap length (append-nil (enveloped 0 (encode_all ms))),
          length-append (enveloped 0 (encode_all ms) ++ []) rest,
          length-append (enveloped 0 (encode_all ms)) rest,
        )))

  module _ (l : IsLossless lzo) (ms : List Outgoing) (w : All IsWord ms)
      (h : length (encode_all ms) ≤ net_data_bufsize) where
    sealed-Carries :
        (r : Code × List ℕ)
        → lzo_compress lzo (encode_all ms) ≡ r
        → Carries lzo (envelope_of (body (encode_all ms) r) ∷ []) ms
    sealed-Carries (success, out) e rest fuel f =
        let (smaller, back) =
          lzo_decompress-compress lzo l (encode_all ms) out decompress_buffer_size (omega arith)
            e in
        rw (append-nil (enveloped 1 out)) (
          scan-enveloped lzo out rest (omega arith) 1 fuel
            (open_compressed lzo out rest (omega arith) back
              ∙ nested-encode_all ms _ w (omega arith))
            (omega (
              arith,
              ap length (append-nil (enveloped 1 out)),
              length-append (enveloped 1 out ++ []) rest,
              length-append (enveloped 1 out) rest,
            )))
    sealed-Carries (error, out) e rest fuel f = plain-Carries ms w h rest fuel f
    sealed-Carries (input_data_error, out) e rest fuel f = plain-Carries ms w h rest fuel f
    sealed-Carries (internal_error, out) e rest fuel f = plain-Carries ms w h rest fuel f
    sealed-Carries (can_not_compress, out) e rest fuel f = plain-Carries ms w h rest fuel f

    -- The envelope that `getSendSize` builds around gathered messages carries just these.
    pub envelope-Carries : Carries lzo (envelope lzo (encode_all ms) ∷ []) ms
    envelope-Carries = sealed-Carries (lzo_compress lzo (encode_all ms)) refl
