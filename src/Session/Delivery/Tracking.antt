-- ===== src/Session/Delivery/Tracking.antt =====
-- What an open session has sealed into packets, and what it still gathers, over its methods.
use ran_online.Base.{
  ℕ, ◌+◌, ◌%◌, ◌^◌, ◌≤◌, ◌≡◌, refl, ap, sym, subst, ◌∙◌, List, [], ◌∷◌, ◌++◌, append-nil,
  append_assoc, false, some,
}
use ran_online.Base.{arith, length, take, length-append, All, All-append, lt→ltb}
use ran_online.MinLzo.{Lzo, IsLossless}
use ran_online.Packet.{header_size}
use ran_online.Packet.Header.{length-encode_message}
use ran_online.Packet.Framer.RoundTrip.{Outgoing, IsWord, encoded, encode_all}
use ran_online.SendBuffer.{
  SendMsgBuffer, AddResult, buffer_send, buffer_added, buffer_send_add, buffer_error, content,
  IsValid, add_msg, get_send_size, net_data_bufsize,
}
use ran_online.SendBuffer.Adding.{Adds, add_msg-Adds}
use ran_online.SendBuffer.Sealing.{
  Sealed, get_send_size-Sealed, get_send_size_empty, length-content,
}
use ran_online.Session.{
  Session, Effect, send, flush, after_add, add_again, buffer_message, enqueue_write,
}
use ran_online.Session.Delivery.Carries.{Carries, Carries-append, envelope-Carries}
use ran_online.Session.Delivery.Queue.{
  started, waiting, QueueState, QueueState-same, Queues, enqueue_write-Queues,
}
use native.Mathlib.Decide.{ℕ_discrete}

-- The fields fit 32 bits and the framed message fits NET_DATA_BUFSIZE.
pub record IsSendable (m : Outgoing) : Type 0 where
  pub word : IsWord m
  pub small : header_size + length m.out_payload ≤ net_data_bufsize

pub encode_all-append :
    (ms ns : List Outgoing) → encode_all (ms ++ ns) ≡ encode_all ms ++ encode_all ns
encode_all-append [] ns = refl
encode_all-append (m ∷ ms) ns =
    rw (encode_all-append ms ns) (sym (append_assoc (encoded m) (encode_all ms) (encode_all ns)))

pub encode_all-eq-nil : (ms : List Outgoing) → encode_all ms ≡ [] → ms ≡ []
encode_all-eq-nil [] h = refl
encode_all-eq-nil (m ∷ ms) h = absurd (
    omega (
      arith,
      ap length h,
      length-append (encoded m) (encode_all ms),
      length-encode_message m.out_type m.out_payload,
    ))

-- `wire` are the packets started so far. With those that wait they carry the messages `packed`;
-- the buffer holds the encodings of `gathered`.
pub record Tracks (lzo : Lzo) (s : Session) (wire : List (List ℕ)) (packed gathered : List Outgoing)
    : Type 0 where
  pub is_open : s.closed ≡ false
  pub valid : IsValid s.send_buffer
  pub state : QueueState s
  pub holds : content s.send_buffer ≡ encode_all gathered
  pub words : All IsWord gathered
  pub carries : Carries lzo (wire ++ waiting s) packed

-- Packets handed to the queue extend what the wire and the queue carry.
pub Carries-queued :
    (lzo : Lzo) (s : Session) (r : Session × List Effect) (ps wire : List (List ℕ))
    (ms ns : List Outgoing)
    → Queues s ps r
    → Carries lzo (wire ++ waiting s) ms
    → Carries lzo ps ns
    → Carries lzo ((wire ++ started r.1) ++ waiting r.0) (ms ++ ns)
Carries-queued lzo s r ps wire ms ns q c d =
    let e : (wire ++ started r.1) ++ waiting r.0 ≡ (wire ++ waiting s) ++ ps =
      append_assoc wire (started r.1) (waiting r.0)
      ∙ ap (◌++◌ wire) q.in_order
      ∙ sym (append_assoc wire (waiting s) ps) in
    rw e (Carries-append lzo (wire ++ waiting s) ps ms ns c d)

module _ (lzo : Lzo) (l : IsLossless lzo) where
  -- A packet that carries the gathered messages is handed to the queue, and the buffer is emptied.
  enqueue-Tracks :
      (s : Session) (wire : List (List ℕ)) (packed gathered : List Outgoing) (packet : List ℕ)
      (b : SendMsgBuffer)
      → Tracks lzo s wire packed gathered
      → Carries lzo (packet ∷ []) gathered
      → IsValid b
      → b.pos ≡ 0
      → let r = enqueue_write packet (record s { send_buffer = b }) in
        Tracks lzo r.0 (wire ++ started r.1) (packed ++ gathered) [] × (r.0.send_buffer.pos ≡ 0)
  enqueue-Tracks s wire packed gathered packet b t c v e =
      let s' = record s { send_buffer = b } in
      let r = enqueue_write packet s' in
      let q = enqueue_write-Queues packet s' (QueueState-same s b t.state) in
      (
        record {
          is_open = q.same_closed ∙ t.is_open;
          valid = rw q.same_buffer v;
          state = q.state;
          holds = rw (q.same_buffer, e);
          words = tt;
          carries = Carries-queued lzo s' r (packet ∷ []) wire packed gathered q t.carries c;
        },
        rw q.same_buffer e,
      )

  flush_empty : (s : Session) → s.send_buffer.pos ≡ 0 → flush lzo s ≡ (s, [])
  unfolding flush
  flush_empty s e = rw (get_send_size_empty lzo s.send_buffer e)

  -- `Flush` packs all that is gathered.
  pub flush-Tracks :
      (s : Session) (wire : List (List ℕ)) (packed gathered : List Outgoing)
      → Tracks lzo s wire packed gathered
      → let r = flush lzo s in
        Tracks lzo r.0 (wire ++ started r.1) (packed ++ gathered) [] × (r.0.send_buffer.pos ≡ 0)
  unfolding flush
  flush-Tracks s wire packed gathered t = elim (ℕ_discrete s.send_buffer.pos 0) [
    | yes e ↦
        let none_left : gathered ≡ [] = encode_all-eq-nil gathered (sym t.holds ∙ rw e) in
        rw (flush_empty s e, none_left, append-nil wire, append-nil packed)
          (subst (Tracks lzo s wire packed) none_left t, e)
    | no ne ↦
        let sealing : Sealed lzo s.send_buffer (get_send_size lzo s.send_buffer) =
          get_send_size-Sealed lzo l s.send_buffer t.valid (omega arith) in
        let (b, size) = get_send_size lzo s.send_buffer in
        let packet = take size b.send_buffer in
        let carried : Carries lzo (packet ∷ []) gathered =
          rw (sealing.is_packet, t.holds)
            (envelope-Carries lzo l gathered t.words (
              omega (
                arith,
                ap length t.holds,
                length-content lzo s.send_buffer t.valid,
                t.valid.pos_le,
              ))) in
        rw (flush, lt→ltb 0 size sealing.packet_pos)
          (enqueue-Tracks s wire packed gathered packet b t carried sealing.still_valid
            sealing.emptied)
  ]

  -- `Send` of a message that fits puts it behind the others, packed or gathered.
  abbrev pub Sent : Session × List Effect → List (List ℕ) → List Outgoing → Type 0
  Sent r wire all =
      (packed : List Outgoing) × (gathered : List Outgoing) × (packed ++ gathered ≡ all)
      × Tracks lzo r.0 (wire ++ started r.1) packed gathered

  module _ (m : Outgoing) (ok : IsSendable m) where
    put_in :
        (s : Session) (wire : List (List ℕ)) (packed gathered : List Outgoing) (b : SendMsgBuffer)
        → Tracks lzo s wire packed gathered
        → IsValid b
        → content b ≡ content s.send_buffer ++ encoded m
        → Tracks lzo (record s { send_buffer = b }) wire packed (gathered ++ (m ∷ []))
    put_in s wire packed gathered b t v e = record {
      is_open = t.is_open;
      valid = v;
      state = QueueState-same s b t.state;
      holds =
          rw (e, t.holds, encode_all-append gathered (m ∷ []))
            (ap (◌++◌ (encode_all gathered)) (sym (append-nil (encoded m))));
      words = All-append IsWord gathered (m ∷ []) t.words (ok.word, tt);
      carries = t.carries;
    }

    len : length (encoded m) ≤ net_data_bufsize
    len = omega (arith, ok.small, length-encode_message m.out_type m.out_payload)

    buffer_message_lem :
        (b : SendMsgBuffer)
        → buffer_message (encoded m) b ≡ add_msg (some (encoded m)) (length (encoded m)) b
    buffer_message_lem b =
        let e : length (encoded m) % 2 ^ 32 ≡ length (encoded m) = omega (arith, len) in rw e

    -- Into an empty buffer the message goes whatever the answer.
    content_first :
        (b : SendMsgBuffer) (r : SendMsgBuffer × AddResult)
        → b.pos ≡ 0
        → Adds b (encoded m) r
        → content r.0 ≡ content b ++ encoded m
    content_first b (b', buffer_error) e a = absurd (omega (arith, len))
    content_first b (b', buffer_added) e a = a.1
    content_first b (b', buffer_send) e a = rw a.0 a.2
    content_first b (b', buffer_send_add) e a = absurd (omega arith)

    add_again-Sent :
        (s : Session) (effects : List Effect) (wire : List (List ℕ)) (packed : List Outgoing)
        → Tracks lzo s (wire ++ started effects) packed []
        → s.send_buffer.pos ≡ 0
        → Sent (add_again (encoded m) (s, effects)) wire (packed ++ (m ∷ []))
    unfolding add_again
    add_again-Sent s effects wire packed t e =
        let (v, a) = add_msg-Adds s.send_buffer (encoded m) t.valid (omega (arith, len)) in
        rw (buffer_message_lem s.send_buffer) (
          packed,
          m ∷ [],
          refl,
          put_in s (wire ++ started effects) packed [] _ t v (content_first s.send_buffer _ e a),
        )

    after_add-Sent :
        (s : Session) (wire : List (List ℕ)) (packed gathered : List Outgoing) (b : SendMsgBuffer)
        (answer : AddResult)
        → Tracks lzo s wire packed gathered
        → IsValid b
        → Adds s.send_buffer (encoded m) (b, answer)
        → Sent
            (after_add lzo (encoded m) (record s { send_buffer = b }) answer)
            wire
            ((packed ++ gathered) ++ (m ∷ []))
    unfolding after_add
    after_add-Sent s wire packed gathered b buffer_error t v a = absurd (omega (arith, len))
    after_add-Sent s wire packed gathered b buffer_added t v a = (
      packed,
      gathered ++ (m ∷ []),
      sym (append_assoc packed gathered (m ∷ [])),
      rw (append-nil wire) (put_in s wire packed gathered b t v a.1),
    )
    after_add-Sent s wire packed gathered b buffer_send t v a = (
      packed ++ (gathered ++ (m ∷ [])),
      [],
      append-nil (packed ++ (gathered ++ (m ∷ []))) ∙ sym (append_assoc packed gathered (m ∷ [])),
      (flush-Tracks (record s { send_buffer = b }) wire packed (gathered ++ (m ∷ []))
          (put_in s wire packed gathered b t v (rw a.0 a.2))).0,
    )
    after_add-Sent s wire packed gathered b buffer_send_add t v a =
        let (t', e) = flush-Tracks s wire packed gathered t in
        rw a.3 (add_again-Sent (flush lzo s).0 (flush lzo s).1 wire (packed ++ gathered) t' e)

    pub send-Sent :
        (s : Session) (wire : List (List ℕ)) (packed gathered : List Outgoing)
        → Tracks lzo s wire packed gathered
        → Sent (send lzo (encoded m) s) wire ((packed ++ gathered) ++ (m ∷ []))
    unfolding send
    send-Sent s wire packed gathered t =
        let (v, a) = add_msg-Adds s.send_buffer (encoded m) t.valid (omega (arith, len)) in
        let sent = after_add-Sent s wire packed gathered _ _ t v a in
        rw (buffer_message_lem s.send_buffer) sent
