-- ===== src/Packet/Framer/Chunks.antt =====
-- TCP may cut the stream anywhere: how the outer loop meets bytes that arrive later.
use ran_online.Base.{ℕ, zero, suc, ◌≤◌, ◌<◌, ◌≡◌, refl, ap, sym, ◌∙◌, List, [], ◌++◌}
use ran_online.Base.{arith, length, drop, length-drop, length-append, append_assoc}
use ran_online.Base.{take-append_le, drop-append_le, get_or-append_lt}
use ran_online.MinLzo.{Lzo}
use ran_online.Packet.{Message}
use ran_online.Packet.Header.{read_le32-append}
use ran_online.Packet.Framer.{
  Scan, waits, broken, starved, push, Opened, sound, unsound, scan, frame_size, frame_type,
  open_frame, after_frame,
}
use ran_online.Packet.Framer.Steps.{
  short, malformed, partial, whole, shape, scan-short, scan-malformed, scan-partial, scan-whole,
}
use ran_online.Packet.Framer.Fuel.{scan_fuel}

-- Goes on from the bytes that a scan left over.
abbrev pub resume : Scan → (List ℕ → Scan) → Scan
resume (waits ms rest) k = push ms (k rest)
resume (broken ms) k = broken ms
resume starved k = starved

pub push-push : (ms ns : List Message) (s : Scan) → push ms (push ns s) ≡ push (ms ++ ns) s
push-push ms ns (waits out rest) = ap (λ o. waits o rest) (sym (append_assoc ms ns out))
push-push ms ns (broken out) = ap broken (sym (append_assoc ms ns out))
push-push ms ns starved = refl

pub push-nil : (s : Scan) → push [] s ≡ s
push-nil (waits out rest) = refl
push-nil (broken out) = refl
push-nil starved = refl

push-resume :
    (ms : List Message) (s : Scan) (k : List ℕ → Scan) → push ms (resume s k) ≡ resume (push ms s) k
push-resume ms (waits out rest) k = push-push ms out (k rest)
push-resume ms (broken out) k = refl
push-resume ms starved k = refl

after_frame-resume :
    (o : Opened) (s : Scan) (k : List ℕ → Scan)
    → after_frame o (resume s k) ≡ resume (after_frame o s) k
after_frame-resume (sound ms) s k = push-resume ms s k
after_frame-resume (unsound ms) s k = refl

pub frame_type-append : (a b : List ℕ) → 8 ≤ length a → frame_type (a ++ b) ≡ frame_type a
frame_type-append a b h =
    rw (drop-append_le 4 a b (omega arith))
      (read_le32-append (drop 4 a) b (omega (arith, length-drop 4 a)))

-- A frame is read from its own bytes alone.
open_frame-append :
    (lzo : Lzo) (size : ℕ) (a b : List ℕ)
    → 8 ≤ length a
    → size ≤ length a
    → open_frame lzo size (a ++ b) ≡ open_frame lzo size a
unfolding open_frame
open_frame-append lzo size a b h k =
    ground (arith, frame_type-append a b h, take-append_le size a b k, get_or-append_lt a b 8 0)

drop-append-lt :
    (s n : ℕ) (a b : List ℕ)
    → 0 < s
    → s ≤ length a
    → length (a ++ b) < suc n
    → length (drop s a ++ b) < n
drop-append-lt s n a b h k l =
    omega (arith, length-append a b, length-append (drop s a) b, length-drop s a)

module _ (lzo : Lzo) (b : List ℕ) where
  -- Where the first scan stopped with all its bytes left.
  rescan :
      (g n : ℕ) (a : List ℕ)
      → length (a ++ b) < g
      → length (a ++ b) < n
      → scan lzo g (a ++ b) ≡ push [] (scan lzo n (a ++ b))
  rescan g n a q r = scan_fuel lzo g n (a ++ b) q r ∙ sym (push-nil _)

  pub scan-append :
      (f g n : ℕ) (a : List ℕ)
      → length a < f
      → length (a ++ b) < g
      → length (a ++ b) < n
      → scan lzo g (a ++ b) ≡ resume (scan lzo f a) (λ rest. scan lzo n (rest ++ b))
  scan-append zero g n a p q r = absurd (omega arith)
  scan-append (suc f) zero n a p q r = absurd (omega arith)
  scan-append (suc f) (suc g) n a p q r = elim (shape a) [
    | short s ↦ rw (scan-short lzo f a s) (rescan (suc g) n a q r)
    | malformed s bad ↦ rw (scan-malformed lzo f a s bad) (
        scan-malformed lzo g (a ++ b) (omega (arith, length-append a b))
          (rw (read_le32-append a b (omega arith)) bad))
    | partial s lo hi part ↦ rw (scan-partial lzo f a s lo hi part) (rescan (suc g) n a q r)
    | whole lo hi fits ↦
        let size : frame_size (a ++ b) ≡ frame_size a = read_le32-append a b (omega arith) in
        rw (scan-whole lzo f a lo hi fits) (
          scan-whole lzo g (a ++ b) (rw size lo) (rw size hi)
            (rw size (omega (arith, length-append a b)))
          ∙ rw
              (
                size,
                open_frame-append lzo (frame_size a) a b (omega arith) fits,
                drop-append_le (frame_size a) a b fits,
                scan-append f g n (drop (frame_size a) a)
                    (omega (arith, length-drop (frame_size a) a))
                    (drop-append-lt _ g a b (omega arith) fits q)
                    (drop-append-lt _ n a b (omega arith) fits (omega arith)),
              )
              (after_frame-resume (open_frame lzo (frame_size a) a)
                (scan lzo f (drop (frame_size a) a)) (λ rest. scan lzo n (rest ++ b))))
  ]
