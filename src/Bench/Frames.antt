-- ===== src/Bench/Frames.antt =====
-- The receiver of `bench_e2e_latency` in examples/benchmark.rs: events out of the chunks of a response.
-- A chunk is bytes, and `send_ts` reads that field of a JSON text. Of each event its time of sending is kept, in place of what has passed since then.
pub mod Drain
pub mod Chunks
use mathlib.Core.Option
use sse_gateway.Prelude.{
  ℕ, zero, suc, ◌+◌, Text, codes, Option, none, some, Bool, true, false, ◌&&◌, List, [], ◌∷◌, ◌++◌,
  length, eqb, leb, if◌then◌else◌,
}
use sse_gateway.Std.Affix.{strip_prefix, strip_suffix}
use sse_gateway.Std.Split.{split}
use sse_gateway.Std.Utf8.{from_utf8_lossy}
use sse_gateway.Std.Decimal.{ℤ}

-- `buffer.find("\n\n")`, with what is before it and what is behind
unfoldable pub cut_frame : Text → Option (Text × Text)
cut_frame [] = none
cut_frame (a ∷ []) = none
cut_frame (a ∷ b ∷ s) =
    let rest = cut_frame (b ∷ s) in
    if eqb a b'\n' && eqb b b'\n'
    then some ([], s)
    else Option.map (λ ((frame, after) : Text × Text). (a ∷ frame, after)) rest

-- The `while let`: the frames, and the buffer that is left. A round takes two bytes at least, so as
-- many rounds as there are bytes are enough.
unfoldable pub frames : ℕ → Text → List Text × Text
unfolding cut_frame
frames zero buffer = ([], buffer)
frames (suc fuel) buffer = elim (cut_frame buffer) [
  | none ↦ ([], buffer)
  | some (frame, after) ↦ let (l, left) = frames fuel after in (frame ∷ l, left)
]

unfoldable pub drain : Text → List Text × Text
unfolding frames
drain buffer = frames (length buffer) buffer

-- `lines().find(|l| l.starts_with("data:"))`; a line loses the carriage return at its end.
unfoldable pub find_data : List Text → Option Text
find_data [] = none
find_data (line ∷ lines) = elim (strip_prefix (codes "data:") line) [
  | none ↦ find_data lines
  | some _ ↦ some (Option.get_or (strip_suffix (b'\r' ∷ []) line) line)
]

-- `trim_start_matches("data:")`
unfoldable pub trim_data : ℕ → Text → Text
trim_data zero s = s
trim_data (suc fuel) s = elim (strip_prefix (codes "data:") s) [
  | none ↦ s
  | some rest ↦ trim_data fuel rest
]

unfoldable pub sent_at : (Text → Option ℤ) → Text → Option ℤ
unfolding find_data trim_data
sent_at send_ts event_str =
    Option.bind (find_data (split b'\n' event_str)) (λ line. send_ts (trim_data (length line) line))

unfoldable pub all_sent_at : (Text → Option ℤ) → List Text → List ℤ
unfolding sent_at
all_sent_at send_ts [] = []
all_sent_at send_ts (frame ∷ l) =
    let rest = all_sent_at send_ts l in
    elim (sent_at send_ts frame) [ none ↦ rest | some ts ↦ ts ∷ rest ]

pub data Chunk : Type 0 where
  bytes : Text → Chunk
  failed : Chunk

-- The `while let` over the chunks: the times so far, and the errors.
unfoldable pub receive : (Text → Option ℤ) → ℕ → List Chunk → Text → List ℤ → List ℤ × ℕ
unfolding drain all_sent_at
receive send_ts num_messages [] buffer received = (received, 0)
receive send_ts num_messages (failed ∷ chunks) buffer received = (received, 1)
receive send_ts num_messages (bytes chunk ∷ chunks) buffer received =
    let (l, left) = drain (buffer ++ from_utf8_lossy chunk) in
    let received' = received ++ all_sent_at send_ts l in
    let rest = receive send_ts num_messages chunks left received' in
    if leb num_messages (length received') then (received', 0) else rest
