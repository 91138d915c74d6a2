-- ===== src/Sandbox/Affinity.antt =====
-- pkg/sandbox/affinity.go and affinity_linux.go: the round robin over the processor's cores, and the
-- mask that pins a process to one. The system call and `taskset` answer as they are told to.
use remote_runtime_engine.Base.{
  ℕ, zero, suc, ◌+◌, ◌*◌, ◌/◌, ◌%◌, ◌^◌, Bool, Option, none, some, List, [], ◌∷◌, Text, codes, ◌++◌,
  ℤ, pos, negsuc, add64, leb, ltb, if◌then◌else◌,
}
use remote_runtime_engine.Sandbox.Docker.{decimal}

-- Go's `a % k` of int, for a positive constant k: the sign is that of a.
unfoldable pub rem : ℤ → ℕ → ℤ
rem (pos n) k = pos (n % k)
rem (negsuc n) k = elim (suc n % k) [ zero ↦ pos 0 | suc m ↦ negsuc m ]

-- `AllocateNextCore`: the core, and the counter `nextCore` after it.
unfoldable pub allocate_next_core : ℕ → ℤ → ℤ × ℤ
unfolding rem
allocate_next_core num_cpu next =
    if leb num_cpu 1 then (pos 0, next) else (rem next num_cpu, add64 next 1)

abbrev zeros : ℕ → List ℕ
zeros zero = []
zeros (suc n) = 0 ∷ zeros n

-- The words of `mask`: all are zero but the one at the index, which has one bit set.
unfoldable pub mask_words : ℕ → ℕ → ℕ → List ℕ
mask_words zero index bit = []
mask_words (suc n) zero bit = 2 ^ bit ∷ zeros n
mask_words (suc n) (suc index) bit = 0 ∷ mask_words n index bit

-- What is done to pin a process.
pub data PinCall : Type 0 where
  sched_setaffinity : List ℕ → PinCall
  taskset : ℕ → ℕ → PinCall

-- The command that the pinning falls back to.
unfoldable pub by_taskset : ℕ → ℕ → Option Text → List PinCall → List PinCall × Option Text
unfolding decimal
by_taskset pid core none calls = (taskset core pid ∷ calls, none)
by_taskset pid core (some e) calls = (
  taskset core pid ∷ calls,
  some (
      codes "failed to pin PID "
      ++ (decimal (pos pid) ++ (codes " to core " ++ (decimal (pos core) ++ (codes ": " ++ e))))),
)

-- `PinProcessToCore`: what it calls, the last first, and its error. A mask has 16 words.
unfoldable pub pin_process_to_core :
    ℕ → ℤ → (List ℕ → Bool) → Option Text → List PinCall × Option Text
unfolding mask_words by_taskset
pin_process_to_core pid (negsuc n) accepted taskset_error = ([], none)
pin_process_to_core pid (pos core) accepted taskset_error =
    let mask = mask_words 16 (core / 64) (core % 64) in
    if ltb (core / 64) 16
    then (if accepted mask
        then (sched_setaffinity mask ∷ [], none)
        else by_taskset pid core taskset_error (sched_setaffinity mask ∷ []))
    else by_taskset pid core taskset_error []

-- The set of cores that a mask stands for, as a number: the words are its digits of 64 bits.
abbrev pub mask_value : List ℕ → ℕ
mask_value [] = 0
mask_value (w ∷ ws) = w + 2 ^ 64 * mask_value ws
