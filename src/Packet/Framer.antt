-- ===== src/Packet/Framer.antt =====
-- MessageFramer::Feed of net/packet.cpp: cutting a byte stream into messages.
pub mod Fuel
pub mod Steps
pub mod Chunks
pub mod Stream
pub mod RoundTrip
pub mod Envelopes
use ran_online.Base.{ℕ, zero, suc, ◌+◌, ◌-◌, List, [], ◌∷◌, ◌++◌, Bool, true, false, ◌||◌}
use ran_online.Base.{length, get_or, drop, take, if◌then◌else◌, ltb, leb, ◌==◌}
use ran_online.Packet.{Message, read_le32, header_size, max_message_size, net_msg_compress}
use ran_online.MinLzo.{Lzo, Code, success, error, input_data_error, internal_error}
use ran_online.MinLzo.{can_not_compress, lzo_decompress}

abbrev pub frame_size : List ℕ → ℕ
frame_size h = read_le32 h

abbrev pub frame_type : List ℕ → ℕ
frame_type h = read_le32 (drop 4 h)

-- The message at the front of `h`, `size` bytes long. Its client is not known yet.
abbrev pub message_at : ℕ → List ℕ → Message
message_at size h = record { type = frame_type h; client_id = 0; bytes = take size h }

-- The result of opening one frame: the messages pushed onto `out`, and whether it was sound.
pub data Opened : Type 0 where
  sound unsound : List Message → Opened

abbrev pub push_opened : Message → Opened → Opened
push_opened m (sound ms) = sound (m ∷ ms)
push_opened m (unsound ms) = unsound (m ∷ ms)

-- The loop over the messages inside an envelope, which is written twice in the source: over the
-- decompressed buffer and over the raw rest of the frame. Fewer than eight bytes left over are
-- skipped. A round takes eight bytes at least, so `length h` rounds are enough.
unfoldable pub nested : ℕ → List ℕ → Opened
nested zero h = sound []
nested (suc fuel) h =
    let more = push_opened (message_at (frame_size h) h) (nested fuel (drop (frame_size h) h)) in
    if ltb (length h) header_size
    then sound []
    else if ltb (frame_size h) header_size || ltb (length h) (frame_size h)
    then unsound []
    else more

-- The size of the vector that a compressed envelope is expanded into.
abbrev pub decompress_buffer_size : ℕ
decompress_buffer_size = 32768

abbrev open_decompressed : Code × List ℕ → Opened
open_decompressed (success, out) = nested (length out) out
open_decompressed (error, out) = unsound []
open_decompressed (input_data_error, out) = unsound []
open_decompressed (internal_error, out) = unsound []
open_decompressed (can_not_compress, out) = unsound []

-- An envelope of `size` bytes at the front of `h`: twelve bytes of header, the flag at byte 8.
abbrev open_envelope : Lzo → ℕ → List ℕ → Opened
open_envelope lzo size h =
    if ltb size 12
    then unsound []
    else if get_or h 8 0 == 1
    then open_decompressed (lzo_decompress lzo (drop 12 (take size h)) decompress_buffer_size)
    else nested (size - 12) (drop 12 (take size h))

unfoldable pub open_frame : Lzo → ℕ → List ℕ → Opened
open_frame lzo size h =
    if frame_type h == net_msg_compress
    then open_envelope lzo size h
    else sound (message_at size h ∷ [])

-- Where the outer loop stands when it stops: the messages so far and the bytes not consumed, a
-- protocol error, or (with too little fuel) nowhere.
pub data Scan : Type 0 where
  waits : List Message → List ℕ → Scan
  broken : List Message → Scan
  starved : Scan

abbrev pub push : List Message → Scan → Scan
push ms (waits out rest) = waits (ms ++ out) rest
push ms (broken out) = broken (ms ++ out)
push ms starved = starved

abbrev pub after_frame : Opened → Scan → Scan
after_frame (sound ms) next = push ms next
after_frame (unsound ms) next = broken ms

-- The outer loop, at the bytes from `pos` on.
unfoldable pub scan : Lzo → ℕ → List ℕ → Scan
scan lzo zero h = starved
scan lzo (suc fuel) h =
    let next =
      after_frame (open_frame lzo (frame_size h) h) (scan lzo fuel (drop (frame_size h) h)) in
    if ltb (length h) header_size
    then waits [] h
    else if ltb (frame_size h) header_size || ltb max_message_size (frame_size h)
    then broken []
    else if ltb (length h) (frame_size h)
    then waits [] h
    else next

pub record MessageFramer : Type 0 where
  pub buf : List ℕ

pub record Fed : Type 0 where
  pub fed_ok : Bool
  pub framer : MessageFramer
  pub out : List Message

-- After a protocol error the whole buffer stays, as `Feed` returns before `erase`. A round takes
-- eight bytes at least, so there is fuel enough; `starved` does not occur.
abbrev fed : List ℕ → Scan → Fed
fed whole (waits out rest) = record { fed_ok = true; framer = record { buf = rest }; out = out }
fed whole (broken out) = record { fed_ok = false; framer = record { buf = whole }; out = out }
fed whole starved = record { fed_ok = false; framer = record { buf = whole }; out = [] }

unfoldable pub feed : Lzo → MessageFramer → List ℕ → Fed
feed lzo f chunk = let whole = f.buf ++ chunk in fed whole (scan lzo (suc (length whole)) whole)

pub buffered : MessageFramer → ℕ
buffered f = length f.buf

pub reset : MessageFramer → MessageFramer
reset f = record { buf = [] }
