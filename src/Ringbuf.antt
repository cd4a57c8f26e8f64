-- ===== src/Ringbuf.antt =====
-- ringbuf/ringbuf.h: a byte ring with pointers to its start, end, read and write positions.
-- A pointer into the block is its offset from `__M_start`; `__M_end` is the offset `cap`. The lock
-- makes each method one step. The bytes that the caller hands over are a list, and so are those
-- that it gets back. The traces on the console are left out.
pub mod Inv
pub mod Queue
pub mod Refine
mod Tests
use linux_cpp.Prelude.{
  ℕ, zero, ◌+◌, ◌-◌, min, List, [], ◌++◌, length, take, drop, replicate, copy_into, ltb, leb, ◌==◌,
  ◌||◌, if◌then◌else◌,
}

pub record Ringbuf : Type 0 where
  pub buf : List ℕ
  pub sz : ℕ
  pub cap : ℕ
  pub read_pos : ℕ
  pub write_pos : ℕ

-- `Ringbuf( size_t __n )`; the block's contents are indeterminate, and stand as zeros.
pub init : ℕ → Ringbuf
init n = record { buf = replicate n 0; sz = 0; cap = n; read_pos = 0; write_pos = 0 }

-- `memcpy( dst, __M_start + pos, len )`
abbrev pub bytes_at : List ℕ → ℕ → ℕ → List ℕ
bytes_at buf pos len = take len (drop pos buf)

-- the two copies of `write` once it has room, for the `len` bytes that go in
pub write_bytes : Ringbuf → List ℕ → ℕ → Ringbuf
write_bytes r bytes len =
    let len1 = r.cap - r.write_pos in
    if leb len len1
    then record r {
      buf = copy_into r.buf r.write_pos (take len bytes);
      write_pos = r.write_pos + len;
      sz = r.sz + len;
    }
    else record r {
      buf =
          copy_into (copy_into r.buf r.write_pos (take len1 bytes)) 0
            (take (len - len1) (drop len1 bytes));
      write_pos = len - len1;
      sz = r.sz + len1 + (len - len1);
    }

-- `write( __data, __n )`: all `n` bytes or none. `__M_cap - __M_sz` does not wrap on a valid ring.
pub write : Ringbuf → List ℕ → ℕ → ℕ × Ringbuf
write r bytes n =
    let remaining = r.cap - r.sz in
    if ltb remaining n
    then (0, r)
    else if remaining == 0 || n == 0
    then (0, r)
    else (min remaining n, write_bytes r bytes (min remaining n))

-- the part of `read` under the lock; the middle component is what it copies out
pub read_locked : Ringbuf → ℕ → ℕ × List ℕ × Ringbuf
read_locked r n =
    let len = min r.sz n in
    let len1 = r.cap - r.read_pos in
    if n == 0 || r.sz == 0
    then (0, [], r)
    else if ltb r.read_pos r.write_pos || leb len len1
    then (
      len,
      bytes_at r.buf r.read_pos len,
      record r { read_pos = r.read_pos + len; sz = r.sz - len },
    )
    else (
      len,
      bytes_at r.buf r.read_pos len1 ++ bytes_at r.buf 0 (len - len1),
      record r { read_pos = len - len1; sz = r.sz - len1 - (len - len1) },
    )

-- `read( __data, __n )`: the first test stands before the lock is taken.
pub read : Ringbuf → ℕ → ℕ × List ℕ × Ringbuf
read r n = if ltb r.sz n then (0, [], r) else read_locked r n
