-- ===== src/Sandbox/Buffer/Capture.antt =====
-- What the bounded buffer of pkg/sandbox/watchdog.go keeps of a stream.
use remote_runtime_engine.Base.{
  ℕ, ◌+◌, ◌-◌, ◌^◌, ◌≤◌, ◌<◌, ◌≡◌, refl, ◌≢◌, true, List, [], ◌∷◌, ◌++◌, ℤ, pos, add64_small, ltb,
  length, length-append, length-take, take, take-append, take-all, take-of_zero, concat, All, arith,
  append-nil, append_assoc, leb_ℤ,
}
use remote_runtime_engine.Sandbox.Buffer.{
  BoundedBuffer, new_bounded_buffer, write, write_all, capture, string, exceeded, total_written,
}

-- `b` has the limit `m` and has kept what fits of the bytes `all`.
record Kept (m : ℕ) (all : List ℕ) (b : BoundedBuffer) : Type 0 where
  limit : b.max_bytes ≡ pos m
  prefix : b.buf ≡ take m all

-- Its flag and its count speak of all the bytes too.
record Counted (m : ℕ) (all : List ℕ) (b : BoundedBuffer) : Type 0 where
  kept : Kept m all b
  count : b.written ≡ pos (length all)
  flag : b.exceeded ≡ ltb m (length all)

module _ (m : ℕ) (all p : List ℕ) where
  -- The three ways in which the kept prefix grows.
  room :
      length (take m all) < m
      → length p ≤ m - length (take m all)
      → take m all ++ p ≡ take m (all ++ p)
  room h k =
      ground
        (arith, length-take m all, take-all m all, take-append m all p, take-all (m - length all) p)

  cut : length (take m all) < m → take m all ++ take (m - length (take m all)) p ≡ take m (all ++ p)
  cut h = ground (arith, length-take m all, take-all m all, take-append m all p)

  full : m ≤ length (take m all) → take m all ≡ take m (all ++ p)
  full h = ground (
    arith,
    length-take m all,
    take-append m all p,
    take-of_zero (m - length all) p,
    append-nil (take m all),
  )

module _ (m : ℕ) (all p : List ℕ) (b : BoundedBuffer) where
  write-Kept : Kept m all b → Kept m (all ++ p) (write p b).0
  unfolding write
  write-Kept h = record {
    limit = ground (arith, h.limit);
    prefix = ground (arith, h.limit, h.prefix, room m all p, cut m all p, full m all p);
  }

  write-Counted :
      p ≢ [] → length all + length p < 2 ^ 63 → Counted m all b → Counted m (all ++ p) (write p b).0
  unfolding write
  write-Counted ne small h = record {
    kept = write-Kept h.kept;
    count = ground (arith, h.count, add64_small (length all) (length p), length-append all p);
    flag =
        ground (arith, h.kept.limit, h.kept.prefix, h.flag, length-take m all, length-append all p);
  }

write_all-Kept :
    (m : ℕ) (all : List ℕ) (ps : List (List ℕ)) (b : BoundedBuffer)
    → Kept m all b
    → Kept m (all ++ concat ps) (write_all ps b)
unfolding write_all
write_all-Kept m all [] b h = rw append-nil h
write_all-Kept m all (p ∷ ps) b h =
    rw (← append_assoc all p (concat ps))
      (write_all-Kept m (all ++ p) ps (write p b).0 (write-Kept m all p b h))

write_all-Counted :
    (m : ℕ) (all : List ℕ) (ps : List (List ℕ)) (b : BoundedBuffer)
    → All (λ p. p ≢ []) ps
    → length all + length (concat ps) < 2 ^ 63
    → Counted m all b
    → Counted m (all ++ concat ps) (write_all ps b)
unfolding write_all
write_all-Counted m all [] b ne small h = rw append-nil h
write_all-Counted m all (p ∷ ps) b ne small h = rw (← append_assoc all p (concat ps)) (
    write_all-Counted m (all ++ p) ps (write p b).0 ne.1
      (omega (arith, small, length-append all p, length-append p (concat ps)))
      (write-Counted m all p b ne.0 (omega (arith, small, length-append p (concat ps))) h))

new-Counted : (m : ℕ) → 0 < m → Counted m [] (new_bounded_buffer (pos m))
unfolding new_bounded_buffer
new-Counted m h = record {
  kept = record { limit = ground arith; prefix = ground (arith, take-all {A = ℕ} m []) };
  count = refl;
  flag = ground arith;
}

-- However a stream is cut into parts, a buffer with a positive limit keeps exactly the first bytes
-- of it up to the limit.
pub capture-prefix :
    (m : ℕ) (parts : List (List ℕ)) → 0 < m → string (capture (pos m) parts) ≡ take m (concat parts)
unfolding capture string
capture-prefix m parts h =
    (write_all-Kept m [] parts (new_bounded_buffer (pos m)) (new-Counted m h).kept).prefix

-- When no part is empty and the stream is shorter than 2^63 bytes, the buffer reports the stream's
-- length, and reports an excess exactly when the stream is longer than the limit.
pub capture-exceeded :
    (m : ℕ) (parts : List (List ℕ))
    → 0 < m
    → All (λ p. p ≢ []) parts
    → length (concat parts) < 2 ^ 63
    → (exceeded (capture (pos m) parts) ≡ ltb m (length (concat parts)))
      × (total_written (capture (pos m) parts) ≡ pos (length (concat parts)))
unfolding capture exceeded total_written
capture-exceeded m parts h ne small =
    let c =
      write_all-Counted m [] parts (new_bounded_buffer (pos m)) ne (omega arith)
        (new-Counted m h) in
    (c.flag, c.count)

-- A limit that is not positive stands for 1 MiB.
pub capture-default :
    (n : ℤ) (parts : List (List ℕ))
    → leb_ℤ n (pos 0) ≡ true
    → capture n parts ≡ capture (pos 1048576) parts
unfolding capture new_bounded_buffer
capture-default n parts h = rw h
