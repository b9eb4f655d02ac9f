-- ===== src/Packet/Framer/Fuel.antt =====
-- The loops of `Feed` come to their end: the fuel given does not matter once it is enough.
use ran_online.Base.{ℕ, zero, suc, ◌≤◌, ◌<◌, ◌≡◌, ◌≢◌, refl, List}
use ran_online.Base.{arith, length, drop, length-drop}
use ran_online.MinLzo.{Lzo}
use ran_online.Packet.Framer.{starved, scan, nested, frame_size}

module _ (lzo : Lzo) where
  pub scan_fuel : (f g : ℕ) (h : List ℕ) → length h < f → length h < g → scan lzo f h ≡ scan lzo g h
  unfolding scan
  scan_fuel zero g h p q = absurd (omega arith)
  scan_fuel (suc f) zero h p q = absurd (omega arith)
  scan_fuel (suc f) (suc g) h p q =
      ground (arith, length-drop (frame_size h) h, scan_fuel f g (drop (frame_size h) h))

  -- The outer loop never runs out of fuel.
  pub scan-ne-starved : (f : ℕ) (h : List ℕ) → length h < f → scan lzo f h ≢ starved
  unfolding scan
  scan-ne-starved zero h p = absurd (omega arith)
  scan-ne-starved (suc f) h p =
      ground (arith, length-drop (frame_size h) h, scan-ne-starved f (drop (frame_size h) h))

pub nested_fuel : (f g : ℕ) (h : List ℕ) → length h ≤ f → length h ≤ g → nested f h ≡ nested g h
unfolding nested
nested_fuel zero zero h p q = refl
nested_fuel zero (suc g) h p q = ground arith
nested_fuel (suc f) zero h p q = ground arith
nested_fuel (suc f) (suc g) h p q =
    ground (arith, length-drop (frame_size h) h, nested_fuel f g (drop (frame_size h) h))
