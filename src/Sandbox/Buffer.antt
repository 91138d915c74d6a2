-- ===== src/Sandbox/Buffer.antt =====
-- pkg/sandbox/watchdog.go: the buffer that captures an output stream up to a limit. The mutex makes
-- each method one step.
pub mod Capture
use remote_runtime_engine.Base.{
  ℕ, ◌+◌, ◌-◌, ◌≡◌, Bool, true, false, List, [], ◌∷◌, ◌++◌, Text, ℤ, pos, pos_part, add64, leb_ℤ,
  ltb_ℤ, ltb, leb, length, take, if◌then◌else◌,
}

pub record BoundedBuffer : Type 0 where
  pub buf : List ℕ
  pub max_bytes : ℤ
  pub written : ℤ
  pub exceeded : Bool

unfoldable pub new_bounded_buffer : ℤ → BoundedBuffer
new_bounded_buffer max_bytes = record {
  buf = [];
  max_bytes = if leb_ℤ max_bytes (pos 0) then pos 1048576 else max_bytes;
  written = pos 0;
  exceeded = false;
}

-- `Write`: the buffer afterwards and the count it reports; it never fails.
unfoldable pub write : List ℕ → BoundedBuffer → BoundedBuffer × ℕ
write p b = (
  if ltb_ℤ (pos (length b.buf)) b.max_bytes
      then (let remaining = pos_part b.max_bytes - length b.buf in
          if leb (length p) remaining
          then record b { buf = b.buf ++ p; written = add64 b.written (length p) }
          else record b {
            buf = b.buf ++ take remaining p;
            written = add64 b.written (length p);
            exceeded = true;
          })
      else record b { written = add64 b.written (length p); exceeded = true },
  length p,
)

-- `String`, `Exceeded` and `TotalWritten`. The bytes are taken as the codes of the text, which is exact
-- for output in ASCII.
unfoldable pub string : BoundedBuffer → Text
string b = b.buf

unfoldable pub exceeded : BoundedBuffer → Bool
exceeded b = b.exceeded

unfoldable pub total_written : BoundedBuffer → ℤ
total_written b = b.written

-- A stream that arrives in parts, as the copying goroutine of `os/exec` writes it.
unfoldable pub write_all : List (List ℕ) → BoundedBuffer → BoundedBuffer
unfolding write
write_all [] b = b
write_all (p ∷ ps) b = write_all ps (write p b).0

-- The buffer after a whole stream, from `NewBoundedBuffer(limit)`.
unfoldable pub capture : ℤ → List (List ℕ) → BoundedBuffer
unfolding write_all new_bounded_buffer
capture limit parts = write_all parts (new_bounded_buffer limit)
