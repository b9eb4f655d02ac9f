-- ===== src/Packet/Framer/Stream.antt =====
-- What a session sees of `Feed` over a whole connection: any cutting of the stream into chunks
-- gives the same messages, and what is kept between reads is short.
use ran_online.Base.{
  ℕ, zero, suc, ◌≤◌, ◌<◌, ◌≡◌, ◌≢◌, refl, ap, sym, ◌∙◌, ◌⊎◌, inl, inr, List, [], ◌∷◌, ◌++◌, true,
  false, Option, some, none,
}
use ran_online.Base.{
  arith, length, drop, length-append, length-drop, subst, append_assoc, append-nil,
}
use ran_online.MinLzo.{Lzo}
use ran_online.Packet.{Message, max_message_size}
use ran_online.Packet.Framer.{
  Scan, waits, broken, starved, push, Opened, sound, unsound, scan, frame_size, open_frame,
  after_frame,
}
use ran_online.Packet.Framer.{MessageFramer, Fed, feed, fed}
use ran_online.Packet.Framer.Fuel.{scan-ne-starved}
use ran_online.Packet.Framer.Chunks.{scan-append}
use ran_online.Packet.Framer.Steps.{
  short, malformed, partial, whole, shape, scan-short, scan-malformed, scan-partial, scan-whole,
}

-- The bytes that `Feed` may keep: no whole header, or the start of a frame of legal length.
abbrev Pending : List ℕ → Type 0
Pending rest =
    (length rest < 8)
    ⊎ ((8 ≤ length rest)
        × (8 ≤ frame_size rest)
        × (frame_size rest ≤ max_message_size)
        × (length rest < frame_size rest))

-- The bytes left over are pending, and no more than `n`.
abbrev PendingScan : ℕ → Scan → Type 0
PendingScan n (waits ms rest) = Pending rest × (length rest ≤ n)
PendingScan n (broken ms) = Unit
PendingScan n starved = Unit

after_frame-PendingScan :
    (o : Opened) (s : Scan) (m n : ℕ) → m ≤ n → PendingScan m s → PendingScan n (after_frame o s)
after_frame-PendingScan (sound ms) (waits out rest) m n le h = (h.0, omega arith)
after_frame-PendingScan (sound ms) (broken out) m n le h = tt
after_frame-PendingScan (sound ms) starved m n le h = tt
after_frame-PendingScan (unsound ms) s m n le h = tt

module _ (lzo : Lzo) where
  scan-PendingScan : (f : ℕ) (h : List ℕ) → PendingScan (length h) (scan lzo f h)
  scan-PendingScan zero h = unfold scan in tt
  scan-PendingScan (suc f) h = elim (shape h) [
    | short s ↦ rw (scan-short lzo f h s) (inl s, omega arith)
    | malformed s bad ↦ rw (scan-malformed lzo f h s bad) tt
    | partial s lo hi part ↦
        rw (scan-partial lzo f h s lo hi part) (inr (s, lo, hi, part), omega arith)
    | whole lo hi fits ↦ rw (scan-whole lzo f h lo hi fits) (
        after_frame-PendingScan (open_frame lzo (frame_size h) h) _ (length (drop (frame_size h) h))
          _ (omega (arith, length-drop (frame_size h) h))
          (scan-PendingScan f (drop (frame_size h) h)))
  ]

  scan-waits : (f : ℕ) (rest : List ℕ) → Pending rest → scan lzo (suc f) rest ≡ waits [] rest
  scan-waits f rest (inl s) = scan-short lzo f rest s
  scan-waits f rest (inr (s, lo, hi, part)) = scan-partial lzo f rest s lo hi part

-- What the caller of `Feed` goes on with: the buffer, unless the link is dropped, and the messages.
abbrev pub outcome : Fed → Option (List ℕ) × List Message
outcome r = elim r.fed_ok [ true ↦ (some r.framer.buf, r.out) | false ↦ (none, r.out) ]

abbrev continue : Fed → Fed → Fed
continue first second = elim first.fed_ok [
  | true ↦ record second { out = first.out ++ second.out }
  | false ↦ first
]

-- `Session::doRead` over a list of reads: it stops at the first protocol error.
pub feed_chunks : Lzo → MessageFramer → List (List ℕ) → Fed
feed_chunks lzo f [] = record { fed_ok = true; framer = f; out = [] }
feed_chunks lzo f (c ∷ cs) = continue (feed lzo f c) (feed_chunks lzo (feed lzo f c).framer cs)

abbrev pub concat : List (List ℕ) → List ℕ
concat [] = []
concat (c ∷ cs) = c ++ concat cs

abbrev observe : Scan → Option (List ℕ) × List Message
observe (waits ms rest) = (some rest, ms)
observe (broken ms) = (none, ms)
observe starved = (none, [])

pub outcome-fed : (buf : List ℕ) (s : Scan) → outcome (fed buf s) ≡ observe s
outcome-fed buf (waits ms rest) = refl
outcome-fed buf (broken ms) = refl
outcome-fed buf starved = refl

pub feed-fed :
    (lzo : Lzo) (f : MessageFramer) (c : List ℕ)
    → feed lzo f c ≡ fed (f.buf ++ c) (scan lzo (suc (length (f.buf ++ c))) (f.buf ++ c))
unfolding feed
feed-fed lzo f c = refl

abbrev prepend : List Message → Option (List ℕ) × List Message → Option (List ℕ) × List Message
prepend ms (buf, out) = (buf, ms ++ out)

outcome-prepend :
    (ms : List Message) (r : Fed)
    → outcome (record r { out = ms ++ r.out }) ≡ prepend ms (outcome r)
outcome-prepend ms r = ground arith

observe-push :
    (ms : List Message) (s : Scan) → s ≢ starved → observe (push ms s) ≡ prepend ms (observe s)
observe-push ms (waits out rest) h = refl
observe-push ms (broken out) h = refl
observe-push ms starved h = absurd (h refl)

abbrev pub empty_framer : MessageFramer
empty_framer = record { buf = [] }

module _ (lzo : Lzo) where
  -- The first chunk, by what its scan comes to; `whole_stream` is all the bytes from it on.
  after_first :
      (h : List ℕ) (later : List ℕ) (n : ℕ) (second : MessageFramer → Fed) (s : Scan)
      → scan lzo (suc (length h)) h ≡ s
      → length (h ++ later) < n
      → ((rest : List ℕ)
          → Pending rest
          → length (rest ++ later) < n
          → outcome (second (record { buf = rest })) ≡ observe (scan lzo n (rest ++ later)))
      → outcome (continue (fed h s) (second (fed h s).framer)) ≡ observe (scan lzo n (h ++ later))
  after_first h later n second (waits ms rest) e q ih =
      let left : Pending rest × (length rest ≤ length h) =
        subst (PendingScan (length h)) e (scan-PendingScan lzo _ h) in
      let fits : length (rest ++ later) < n =
        omega (arith, length-append rest later, length-append h later) in
      rw
        (
          outcome-prepend ms (second (record { buf = rest })),
          ih rest left.0 fits,
          scan-append lzo later (suc (length h)) n n h (omega arith) q q,
          e,
        )
        (sym (observe-push ms (scan lzo n (rest ++ later)) (scan-ne-starved lzo n _ fits)))
  after_first h later n second (broken ms) e q ih =
      rw (scan-append lzo later (suc (length h)) n n h (omega arith) q q, e)
  after_first h later n second starved e q ih = absurd (scan-ne-starved lzo _ h (omega arith) e)

  feed_chunks_from :
      (cs : List (List ℕ)) (f : MessageFramer) (n : ℕ)
      → Pending f.buf
      → length (f.buf ++ concat cs) < n
      → outcome (feed_chunks lzo f cs) ≡ observe (scan lzo n (f.buf ++ concat cs))
  unfolding feed_chunks
  feed_chunks_from [] f zero h q = absurd (omega arith)
  feed_chunks_from [] f (suc n) h q = rw (append-nil f.buf, scan-waits lzo n f.buf h)
  feed_chunks_from (c ∷ cs) f n h q =
      rw (feed-fed lzo f c, sym (append_assoc f.buf c (concat cs)))
        (after_first (f.buf ++ c) (concat cs) n (λ f'. feed_chunks lzo f' cs) _ refl
          (omega (arith, ap length (append_assoc f.buf c (concat cs))))
          (λ rest h' q'. feed_chunks_from cs (record { buf = rest }) n h' q'))

  -- However TCP cuts the stream of a connection into reads, the session's framer yields the same
  -- messages, drops the link at a protocol error or not, and keeps the same bytes, as it would if
  -- all the bytes came in one read.
  pub feed_chunks-concat :
      (cs : List (List ℕ))
      → outcome (feed_chunks lzo empty_framer cs) ≡ outcome (feed lzo empty_framer (concat cs))
  feed_chunks-concat cs =
      feed_chunks_from cs empty_framer (suc (length (concat cs))) (inl (omega arith)) (omega arith)
      ∙ sym (rw (feed-fed lzo empty_framer (concat cs)) (outcome-fed (concat cs) _))

  -- What the framer keeps after an accepted read is shorter than the largest frame, whatever it
  -- held before and however much the read brought.
  pub feed_bounded :
      (f : MessageFramer) (c : List ℕ)
      → (feed lzo f c).fed_ok ≡ true
      → length (feed lzo f c).framer.buf < max_message_size
  feed_bounded f c = rw (feed-fed lzo f c) (kept (f.buf ++ c) _ (scan-PendingScan lzo _ _))
    where
      kept :
          (h : List ℕ) (s : Scan)
          → PendingScan (length h) s
          → (fed h s).fed_ok ≡ true
          → length (fed h s).framer.buf < max_message_size
      kept h (waits ms rest) p e = omega arith
      kept h (broken ms) p e = cc
      kept h starved p e = cc
