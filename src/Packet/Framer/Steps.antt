-- ===== src/Packet/Framer/Steps.antt =====
-- One round of the outer loop of `Feed`, by the shape of the bytes in front of it.
use ran_online.Base.{ℕ, suc, ◌≤◌, ◌<◌, ◌≡◌, ◌⊎◌, inl, inr, List, []}
use ran_online.Base.{arith, length, drop}
use ran_online.MinLzo.{Lzo}
use ran_online.Packet.{max_message_size}
use ran_online.Packet.Framer.{waits, broken, scan, frame_size, open_frame, after_frame}
use native.Mathlib.Decide.{dec_lt}

-- Too few bytes for a header, a length out of range, a frame that is not all there, or a frame.
pub data Shape (h : List ℕ) : Type 0 where
  short : length h < 8 → Shape h
  malformed : 8 ≤ length h → (frame_size h < 8) ⊎ (max_message_size < frame_size h) → Shape h
  partial :
      8 ≤ length h
      → 8 ≤ frame_size h
      → frame_size h ≤ max_message_size
      → length h < frame_size h
      → Shape h
  whole : 8 ≤ frame_size h → frame_size h ≤ max_message_size → frame_size h ≤ length h → Shape h

pub shape : (h : List ℕ) → Shape h
shape h = elim (dec_lt (length h) 8) [
  | yes a ↦ short a
  | no a ↦ elim (dec_lt (frame_size h) 8) [
    | yes b ↦ malformed (omega arith) (inl b)
    | no b ↦ elim (dec_lt max_message_size (frame_size h)) [
      | yes c ↦ malformed (omega arith) (inr c)
      | no c ↦ elim (dec_lt (length h) (frame_size h)) [
        | yes d ↦ partial (omega arith) (omega arith) (omega arith) d
        | no d ↦ whole (omega arith) (omega arith) (omega arith)
      ]
    ]
  ]
]

module _ (lzo : Lzo) (f : ℕ) (h : List ℕ) where
  pub scan-short : length h < 8 → scan lzo (suc f) h ≡ waits [] h
  unfolding scan
  scan-short a = ground arith

  pub scan-malformed :
      8 ≤ length h
      → (frame_size h < 8) ⊎ (max_message_size < frame_size h)
      → scan lzo (suc f) h ≡ broken []
  unfolding scan
  scan-malformed a b = ground arith

  pub scan-partial :
      8 ≤ length h
      → 8 ≤ frame_size h
      → frame_size h ≤ max_message_size
      → length h < frame_size h
      → scan lzo (suc f) h ≡ waits [] h
  unfolding scan
  scan-partial a b c d = ground arith

  pub scan-whole :
      8 ≤ frame_size h
      → frame_size h ≤ max_message_size
      → frame_size h ≤ length h
      → scan lzo (suc f) h
        ≡ after_frame (open_frame lzo (frame_size h) h) (scan lzo f (drop (frame_size h) h))
  unfolding scan
  scan-whole a b c = ground arith
