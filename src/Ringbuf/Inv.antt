-- ===== src/Ringbuf/Inv.antt =====
-- The representation invariant of the ring in ringbuf/ringbuf.h.
use linux_cpp.Prelude.{
  ℕ, ◌+◌, ◌-◌, min, ◌≤◌, ◌<◌, ◌≡◌, ◌⊎◌, List, length, take, drop, copy_into, arith,
  length-copy_into, length-replicate,
}
use linux_cpp.Ringbuf.{Ringbuf, init, write_bytes, write, read_locked, read}

-- The bytes lie between the two positions, or go round the end of the block.
pub record IsValid (r : Ringbuf) : Type 0 where
  pub block : length r.buf ≡ r.cap
  pub read_in : r.read_pos ≤ r.cap
  pub write_in : r.write_pos ≤ r.cap
  pub shape :
      (r.read_pos < r.write_pos) × (r.read_pos + r.sz ≡ r.write_pos)
      ⊎ (r.write_pos ≤ r.read_pos) × (r.read_pos + r.sz ≡ r.cap + r.write_pos)
      ⊎ (r.write_pos ≡ r.read_pos) × (r.sz ≡ 0)

pub init-IsValid : (n : ℕ) → IsValid (init n)
unfolding init
init-IsValid n = omega (arith, length-replicate {A = ℕ} n 0)

pub sz-le-cap : {r : Ringbuf} → IsValid r → r.sz ≤ r.cap
sz-le-cap v = omega arith

pub length-write_bytes :
    (r : Ringbuf) (bytes : List ℕ) (len : ℕ) → length (write_bytes r bytes len).buf ≡ length r.buf
unfolding write_bytes
length-write_bytes r bytes len =
    let len1 = r.cap - r.write_pos in
    let first = copy_into r.buf r.write_pos (take len1 bytes) in
    ground (
      arith,
      length-copy_into (take len bytes) r.buf r.write_pos,
      length-copy_into (take (len - len1) (drop len1 bytes)) first 0,
      length-copy_into (take len1 bytes) r.buf r.write_pos,
    )

write_bytes-IsValid :
    {r : Ringbuf} (bytes : List ℕ) (len : ℕ)
    → IsValid r
    → 0 < len
    → len ≤ r.cap - r.sz
    → IsValid (write_bytes r bytes len)
write_bytes-IsValid {r} bytes len v p h = record {
  block = unfold write_bytes in ground (arith, length-write_bytes r bytes len);
  read_in = unfold write_bytes in ground arith;
  write_in = unfold write_bytes in ground arith;
  shape = unfold write_bytes in ground arith;
}

-- A write keeps the ring valid, whether it takes the bytes or not.
pub write-IsValid : {r : Ringbuf} (bytes : List ℕ) (n : ℕ) → IsValid r → IsValid (write r bytes n).1
unfolding write
write-IsValid {r} bytes n v = ground (arith, write_bytes-IsValid bytes (min (r.cap - r.sz) n) v)

-- A read keeps the ring valid, also where another reader was faster between test and lock.
pub read_locked-IsValid : {r : Ringbuf} (n : ℕ) → IsValid r → IsValid (read_locked r n).2
unfolding read_locked
read_locked-IsValid {r} n v = ground arith

pub read-IsValid : {r : Ringbuf} (n : ℕ) → IsValid r → IsValid (read r n).2
unfolding read
read-IsValid {r} n v = ground (arith, read_locked-IsValid n v)
