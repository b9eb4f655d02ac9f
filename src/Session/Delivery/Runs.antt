-- ===== src/Session/Delivery/Runs.antt =====
-- Whole conversations: what a session that is not closed sends is what the peer's framer gets.
use ran_online.Base.{
  ℕ, suc, ◌≡◌, refl, ap, sym, subst, ◌∙◌, List, [], ◌∷◌, ◌++◌, map, append-nil, append_assoc, true,
  false, Option, some, none,
}
use ran_online.Base.{arith, length, All}
use mathlib.Core.Bool.{false≢true}
use ran_online.MinLzo.{Lzo, IsLossless}
use ran_online.Packet.Framer.{waits, scan}
use ran_online.Packet.Framer.Steps.{scan-short}
use ran_online.Packet.Framer.Stream.{
  outcome, feed_chunks, concat, feed_chunks-concat, feed-fed, empty_framer,
}
use ran_online.Packet.Framer.RoundTrip.{Outgoing, encoded, received}
use ran_online.SendBuffer.{new_send_msg_buffer}
use ran_online.SendBuffer.Adding.{new_send_msg_buffer-IsValid}
use ran_online.Session.{Session, Effect, new_session, write_done}
use ran_online.Session.Closing.{Event, sends, flushes, writes, step, and_then, run}
use ran_online.Session.Delivery.Carries.{Carries, Carries-nil}
use ran_online.Session.Delivery.Queue.{
  started, started-append, waiting, QueueState, idle, writing, write_done-Queues,
}
use ran_online.Session.Delivery.Tracking.{
  IsSendable, Tracks, send-Sent, flush-Tracks, Carries-queued, encode_all-eq-nil,
}

-- What a server and the socket do to a session while there is no error: it is sent a message, it
-- is flushed, a write completes.
pub data Act : Type 0 where
  say : Outgoing → Act
  flush_now written : Act

abbrev pub event : Act → Event
event (say m) = sends (encoded m)
event flush_now = flushes
event written = writes false

abbrev pub said : List Act → List Outgoing
said [] = []
said (say m ∷ acts) = m ∷ said acts
said (flush_now ∷ acts) = said acts
said (written ∷ acts) = said acts

abbrev pub IsGood : Act → Type 0
IsGood (say m) = IsSendable m
IsGood flush_now = Unit
IsGood written = Unit

-- A completion comes only while a write is in flight.
abbrev CanHappen : Session → Act → Type 0
CanHappen s (say m) = Unit
CanHappen s flush_now = Unit
CanHappen s written = s.write_in_progress ≡ true

abbrev Then : (Session → Type 0) → Option (Session × List Effect) → Type 0
Then P none = Unit
Then P (some r) = P r.0

abbrev pub Causal : Lzo → Session → List Act → Type 0
Causal lzo s [] = Unit
Causal lzo s (a ∷ acts) = CanHappen s a × Then (λ t. Causal lzo t acts) (step lzo s (event a))

-- All messages so far are packed or gathered, and nothing undefined happened.
abbrev Sound : Lzo → List (List ℕ) → List Outgoing → Option (Session × List Effect) → Type 0
Sound lzo wire all none = ⊥
Sound lzo wire all (some r) =
    (packed : List Outgoing) × (gathered : List Outgoing) × (packed ++ gathered ≡ all)
    × Tracks lzo r.0 (wire ++ started r.1) packed gathered

module _ (lzo : Lzo) (l : IsLossless lzo) where
  written-Sound :
      (s : Session) (wire : List (List ℕ)) (packed gathered : List Outgoing)
      → Tracks lzo s wire packed gathered
      → s.write_in_progress ≡ true
      → QueueState s
      → Sound lzo wire (packed ++ gathered) (write_done false s)
  written-Sound s wire packed gathered t h (idle e f) = absurd (false≢true (sym e ∙ h))
  written-Sound s wire packed gathered t h (writing p ps e f) =
      let (r, done, q) = write_done-Queues s p ps e f in
      let tracked : Tracks lzo r.0 (wire ++ started r.1) packed gathered = record {
        is_open = q.same_closed ∙ t.is_open;
        valid = rw q.same_buffer t.valid;
        state = q.state;
        holds = rw q.same_buffer t.holds;
        words = t.words;
        carries =
            rw append-nil at
              (Carries-queued lzo s r [] wire packed [] q t.carries (Carries-nil lzo));
      } in
      rw done (packed, gathered, refl, tracked)

  step-Sound :
      (s : Session) (wire : List (List ℕ)) (packed gathered : List Outgoing) (a : Act)
      → Tracks lzo s wire packed gathered
      → IsGood a
      → CanHappen s a
      → Sound lzo wire ((packed ++ gathered) ++ said (a ∷ [])) (step lzo s (event a))
  step-Sound s wire packed gathered (say m) t g c = send-Sent lzo l m g s wire packed gathered t
  step-Sound s wire packed gathered flush_now t g c =
      (packed ++ gathered, [], refl, (flush-Tracks lzo l s wire packed gathered t).0)
  step-Sound s wire packed gathered written t g c =
      rw (append-nil (packed ++ gathered)) (written-Sound s wire packed gathered t c t.state)

  join_later :
      (wire : List (List ℕ)) (all : List Outgoing) (t : Session) (first : List Effect)
      (later : Option (Session × List Effect))
      → Sound lzo (wire ++ started first) all later
      → Sound lzo wire all (and_then (some (t, first)) (λ _. later))
  join_later wire all t first none h = h
  join_later wire all t first (some (u, effects)) (packed, gathered, e, tr) = (
    packed,
    gathered,
    e,
    rw (started-append first effects, ← append_assoc wire (started first) (started effects)) tr,
  )

  join-Sound :
      (acts : List Act) (wire : List (List ℕ)) (all : List Outgoing)
      (o : Option (Session × List Effect)) (next : Session → Option (Session × List Effect))
      → Sound lzo wire all o
      → Then (λ t. Causal lzo t acts) o
      → ((t : Session) (w : List (List ℕ)) (packed gathered : List Outgoing)
          → Tracks lzo t w packed gathered
          → Causal lzo t acts
          → Sound lzo w ((packed ++ gathered) ++ said acts) (next t))
      → Sound lzo wire (all ++ said acts) (and_then o next)
  join-Sound acts wire all none next h c ih = h
  join-Sound acts wire all (some (t, first)) next (packed, gathered, e, tr) c ih =
      join_later wire (all ++ said acts) t first (next t) (
        subst (λ (x : List Outgoing). Sound lzo (wire ++ started first) (x ++ said acts) (next t)) e
          (ih t (wire ++ started first) packed gathered tr c))

  said_cons :
      (a : Act) (acts : List Act) (all : List Outgoing)
      → (all ++ said (a ∷ [])) ++ said acts ≡ all ++ said (a ∷ acts)
  said_cons (say m) acts all = append_assoc all (m ∷ []) (said acts)
  said_cons flush_now acts all = ap (λ x. x ++ said acts) (append-nil all)
  said_cons written acts all = ap (λ x. x ++ said acts) (append-nil all)

  run-Sound :
      (acts : List Act) (s : Session) (wire : List (List ℕ)) (packed gathered : List Outgoing)
      → Tracks lzo s wire packed gathered
      → All IsGood acts
      → Causal lzo s acts
      → Sound lzo wire ((packed ++ gathered) ++ said acts) (run lzo s (map event acts))
  unfolding run
  run-Sound [] s wire packed gathered t g c =
      (packed, gathered, sym (append-nil _), rw (append-nil wire) t)
  run-Sound (a ∷ acts) s wire packed gathered t g c = rw (← said_cons a acts (packed ++ gathered)) (
      join-Sound acts wire ((packed ++ gathered) ++ said (a ∷ [])) (step lzo s (event a))
        (λ t'. run lzo t' (map event acts)) (step-Sound s wire packed gathered a t g.0 c.0) c.1
        (λ t' w p q tr c'. run-Sound acts t' w p q tr g.1 c'))

  new_session-Tracks : (id : ℕ) → Tracks lzo (new_session id) [] [] []
  new_session-Tracks id = record {
    is_open = unfold new_session in refl;
    valid = unfold new_session in new_send_msg_buffer-IsValid;
    state = unfold new_session in idle refl refl;
    holds = unfold new_session in (unfold new_send_msg_buffer in refl);
    words = tt;
    carries = unfold new_session in Carries-nil lzo;
  }

  -- A conversation of messages that fit, with flushes and write completions in any order, each
  -- completion while a write is in flight, runs to its end: `pop_front` never meets an empty deque.
  pub run_defined :
      (id : ℕ) (acts : List Act)
      → All IsGood acts
      → Causal lzo (new_session id) acts
      → (r : Session × List Effect) × (run lzo (new_session id) (map event acts) ≡ some r)
  run_defined id acts g c =
      some_of (run lzo (new_session id) (map event acts))
        (run-Sound acts (new_session id) [] [] [] (new_session-Tracks id) g c)
    where
      some_of :
          (o : Option (Session × List Effect))
          → Sound lzo [] (said acts) o
          → (r : Session × List Effect) × (o ≡ some r)
      some_of none h = absurd h
      some_of (some r) h = (r, refl)

  -- Nothing gathered: the packets carry all that was said.
  all_packed :
      (acts : List Act) (t : Session) (effects : List Effect)
      → Sound lzo [] (said acts) (some (t, effects))
      → t.send_buffer.pos ≡ 0
      → Carries lzo (started effects ++ waiting t) (said acts)
  all_packed acts t effects (packed, gathered, e, tr) empty =
      let none_left : gathered ≡ [] = encode_all-eq-nil gathered (sym tr.holds ∙ rw empty) in
      let same : packed ≡ said acts =
        sym (append-nil packed) ∙ ap (◌++◌ packed) (sym none_left) ∙ e in
      rw (← same) tr.carries

  scan_carried :
      (packets cs : List (List ℕ)) (ms : List Outgoing)
      → Carries lzo packets ms
      → concat cs ≡ concat packets
      → scan lzo (suc (length (concat cs))) (concat cs) ≡ waits (map received ms) []
  scan_carried packets cs ms c e =
      let fuel = suc (length (concat cs)) in
      let whole : concat packets ++ [] ≡ concat cs = append-nil (concat packets) ∙ sym e in
      ap (scan lzo fuel) (sym whole)
      ∙ c [] fuel (omega (arith, ap length whole))
      ∙ rw (scan-short lzo (length (concat cs)) [] (omega arith))
          (ap (λ o. waits o []) (append-nil (map received ms)))

  -- A conversation of messages that fit, with flushes and write completions in any order, each
  -- completion while a write is in flight: the packets that it started to write and those that
  -- still wait, cut into reads anywhere, give the peer's framer exactly the messages said, whole
  -- and in their order, with no byte left over, once the send buffer holds nothing more.
  pub delivery :
      (id : ℕ) (acts : List Act) (t : Session) (effects : List Effect) (cs : List (List ℕ))
      → All IsGood acts
      → Causal lzo (new_session id) acts
      → run lzo (new_session id) (map event acts) ≡ some (t, effects)
      → t.send_buffer.pos ≡ 0
      → concat cs ≡ concat (started effects ++ waiting t)
      → outcome (feed_chunks lzo empty_framer cs) ≡ (some [], map received (said acts))
  delivery id acts t effects cs g c e empty arrived =
      let carried =
        all_packed acts t effects
          (subst (Sound lzo [] (said acts)) e
            (run-Sound acts (new_session id) [] [] [] (new_session-Tracks id) g c))
          empty in
      feed_chunks-concat lzo cs
      ∙ rw (
        feed-fed lzo empty_framer (concat cs),
        scan_carried (started effects ++ waiting t) cs (said acts) carried arrived,
      )
