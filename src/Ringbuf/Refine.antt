-- ===== src/Ringbuf/Refine.antt =====
-- A valid ring of ringbuf/ringbuf.h behaves as the bounded queue of the bytes that it holds.
use linux_cpp.Prelude.{
  ℕ, ◌+◌, ◌-◌, min, ◌≤◌, ◌<◌, ◌≡◌, refl, ap, ap₂, ◌∙◌, sym, List, [], ◌∷◌, ◌++◌, length, take, drop,
  get_or, tabulate, copy_into, ltb, if◌then◌else◌, arith, length-tabulate, take-append-drop,
  length-take, length-drop, length-copy_into, get_or-take, get_or-drop, tabulate_ext,
  tabulate-append, take-tabulate, drop-tabulate, take-eq-tabulate, get_or-copy_into_in,
  get_or-copy_into_out, get_or-copy_into_above,
}
use linux_cpp.Ringbuf.Queue
use linux_cpp.Ringbuf.Queue.{Op, put, get, Reply}
use linux_cpp.Ringbuf.{Ringbuf, bytes_at, write_bytes, write, read_locked, read}
use linux_cpp.Ringbuf.Inv.{IsValid, write-IsValid, read-IsValid, sz-le-cap}

-- where the byte `j` places after the oldest one lies
abbrev pub slot : Ringbuf → ℕ → ℕ
slot r j = if ltb (r.read_pos + j) r.cap then r.read_pos + j else r.read_pos + j - r.cap

abbrev pub byte_at : Ringbuf → ℕ → ℕ
byte_at r j = get_or r.buf (slot r j) 0

-- the bytes that the ring holds, oldest first
abbrev pub contents : Ringbuf → List ℕ
contents r = tabulate (byte_at r) r.sz

module _ {r : Ringbuf} (bytes : List ℕ) (len : ℕ) (v : IsValid r) (p : 0 < len)
    (h : len ≤ r.cap - r.sz) (e : len ≤ length bytes) where
  write_bytes-sz : (write_bytes r bytes len).sz ≡ r.sz + len
  unfolding write_bytes
  write_bytes-sz = ground arith

  write_bytes_old : (j : ℕ) → j < r.sz → byte_at (write_bytes r bytes len) j ≡ byte_at r j
  unfolding write_bytes
  write_bytes_old j q =
      let len1 = r.cap - r.write_pos in
      let first = copy_into r.buf r.write_pos (take len1 bytes) in
      let rest = take (len - len1) (drop len1 bytes) in
      ground (
        arith,
        get_or-copy_into_out (take len bytes) r.buf r.write_pos (slot r j) 0,
        get_or-copy_into_above (take len bytes) r.buf r.write_pos (slot r j) 0,
        get_or-copy_into_above rest first 0 (slot r j) 0,
        get_or-copy_into_out (take len1 bytes) r.buf r.write_pos (slot r j) 0,
        length-take len bytes,
        length-take len1 bytes,
        length-take (len - len1) (drop len1 bytes),
        length-drop len1 bytes,
      )

  write_bytes_new :
      (j : ℕ) → j < len → byte_at (write_bytes r bytes len) (r.sz + j) ≡ get_or bytes j 0
  unfolding write_bytes
  write_bytes_new j q =
      let len1 = r.cap - r.write_pos in
      let first = copy_into r.buf r.write_pos (take len1 bytes) in
      let rest = take (len - len1) (drop len1 bytes) in
      ground (
        arith,
        get_or-copy_into_in (take len bytes) r.buf r.write_pos j 0,
        get_or-copy_into_in rest first 0 (j - len1) 0,
        get_or-copy_into_above rest first 0 (slot r (r.sz + j)) 0,
        get_or-copy_into_in (take len1 bytes) r.buf r.write_pos j 0,
        length-take len bytes,
        length-take len1 bytes,
        length-take (len - len1) (drop len1 bytes),
        length-drop len1 bytes,
        length-copy_into (take len1 bytes) r.buf r.write_pos,
        get_or-take len j bytes 0,
        get_or-take len1 j bytes 0,
        get_or-take (len - len1) (j - len1) (drop len1 bytes) 0,
        get_or-drop len1 (j - len1) bytes 0,
      )

  contents-write_bytes : contents (write_bytes r bytes len) ≡ contents r ++ take len bytes
  contents-write_bytes =
      ap (tabulate (byte_at (write_bytes r bytes len))) write_bytes-sz
      ∙ tabulate-append (byte_at (write_bytes r bytes len)) (λ j. get_or bytes j 0) r.sz len
          write_bytes_new
      ∙ ap₂ ◌++◌ (tabulate_ext (byte_at (write_bytes r bytes len)) (byte_at r) r.sz write_bytes_old)
          (sym (take-eq-tabulate len bytes 0 e))

bytes_at-eq :
    (buf : List ℕ) (pos len : ℕ)
    → pos + len ≤ length buf
    → bytes_at buf pos len ≡ tabulate (λ j. get_or buf (pos + j) 0) len
bytes_at-eq buf pos len h =
    take-eq-tabulate len (drop pos buf) 0 (omega (arith, length-drop pos buf))
    ∙ tabulate_ext _ _ len (λ j p. get_or-drop pos j buf 0)

module _ {r : Ringbuf} (n : ℕ) (v : IsValid r) where
  -- what comes out before the end of the block
  straight : n ≤ r.sz → r.read_pos + n ≤ r.cap → bytes_at r.buf r.read_pos n ≡ take n (contents r)
  straight h q =
      bytes_at-eq r.buf r.read_pos n (omega arith)
      ∙ tabulate_ext _ (byte_at r) n (λ j p. ground arith)
      ∙ sym (take-tabulate (byte_at r) n r.sz h)

  -- what comes out on both sides of the end of the block
  split :
      n ≤ r.sz
      → r.cap ≤ r.read_pos + n
      → bytes_at r.buf r.read_pos (r.cap - r.read_pos)
          ++ bytes_at r.buf 0 (n - (r.cap - r.read_pos))
        ≡ take n (contents r)
  split h q =
      let len1 = r.cap - r.read_pos in
      ap₂ ◌++◌
        (bytes_at-eq r.buf r.read_pos len1 (omega arith)
          ∙ tabulate_ext _ (byte_at r) len1 (λ j p. ground arith))
        (bytes_at-eq r.buf 0 (n - len1) (omega arith))
      ∙ sym (
          tabulate-append (byte_at r) (λ j. get_or r.buf (0 + j) 0) len1 (n - len1)
            (λ j p. ap (λ t. get_or r.buf t 0) (ground arith)))
      ∙ ap (tabulate (byte_at r)) (omega arith)
      ∙ sym (take-tabulate (byte_at r) n r.sz h)

  read_locked-bytes : n ≤ r.sz → (read_locked r n).1 ≡ take n (contents r)
  unfolding read_locked
  read_locked-bytes h = ground (arith, straight h, split h)

  sz-read_locked : n ≤ r.sz → (read_locked r n).2.sz ≡ r.sz - n
  unfolding read_locked
  sz-read_locked h = ground arith

  byte_at-read_locked :
      n ≤ r.sz → (j : ℕ) → j < r.sz - n → byte_at (read_locked r n).2 j ≡ byte_at r (n + j)
  unfolding read_locked
  byte_at-read_locked h j p = ground arith

  contents-read_locked : n ≤ r.sz → contents (read_locked r n).2 ≡ drop n (contents r)
  contents-read_locked h =
      ap (tabulate (byte_at (read_locked r n).2)) (sz-read_locked h)
      ∙ tabulate_ext _ (λ j. byte_at r (n + j)) (r.sz - n) (byte_at-read_locked h)
      ∙ sym (drop-tabulate (byte_at r) n r.sz)

  read_locked-count : n ≤ r.sz → (read_locked r n).0 ≡ n
  unfolding read_locked
  read_locked-count h = ground arith

length-contents : (r : Ringbuf) → length (contents r) ≡ r.sz
length-contents r = length-tabulate (byte_at r) r.sz

-- `write` is the queue's: all the bytes go in behind the others, or none does.
pub write_refines :
    {r : Ringbuf} (bytes : List ℕ) (n : ℕ)
    → IsValid r
    → n ≤ length bytes
    → let (k, r') = write r bytes n in (k, contents r') ≡ Queue.write r.cap (contents r) bytes n
unfolding write Queue.write
write_refines {r} bytes n v h =
    ground (arith, length-contents r, sz-le-cap v, contents-write_bytes bytes n v)

-- `read` is the queue's: the oldest bytes come out in order, or none does.
pub read_refines :
    {r : Ringbuf} (n : ℕ)
    → IsValid r
    → let (k, out, r') = read r n in (k, out, contents r') ≡ Queue.read (contents r) n
unfolding read Queue.read
read_refines {r} n v = ground (
  arith,
  length-contents r,
  read_locked-bytes n v,
  contents-read_locked n v,
  read_locked-count n v,
)

read_locked-min : (r : Ringbuf) (n : ℕ) → read_locked r (min r.sz n) ≡ read_locked r n
unfolding read_locked
read_locked-min r n = ground arith

-- On a valid ring, `read` under the lock gives back as many bytes as were asked for or, if the ring
-- holds fewer, all that it holds: they are the first bytes of the ring, and the rest stays in it.
pub read_locked_short :
    {r : Ringbuf} (n : ℕ)
    → IsValid r
    → let (k, out, r') = read_locked r n in
      (k ≡ min r.sz n) × (out ++ contents r' ≡ contents r) × (length out ≡ k)
read_locked_short {r} n v =
    let m = min r.sz n in
    rw (← read_locked-min r n) (
      read_locked-count m v (omega arith),
      ap₂ ◌++◌ (read_locked-bytes m v (omega arith)) (contents-read_locked m v (omega arith))
          ∙ take-append-drop m (contents r),
      ap length (read_locked-bytes m v (omega arith))
          ∙ omega (arith, length-take m (contents r), length-contents r, read_locked-count m v),
    )

cap-write : (r : Ringbuf) (bytes : List ℕ) (n : ℕ) → (write r bytes n).1.cap ≡ r.cap
unfolding write write_bytes
cap-write r bytes n = ground arith

cap-read : (r : Ringbuf) (n : ℕ) → (read r n).2.cap ≡ r.cap
unfolding read read_locked
cap-read r n = ground arith

-- a client's calls in order, with what each gives back
unfoldable pub run : Ringbuf → List Op → List Reply
run r [] = []
run r (put bytes ∷ ops) = let (k, r') = write r bytes (length bytes) in (k, []) ∷ run r' ops
run r (get n ∷ ops) = let (k, out, r') = read r n in (k, out) ∷ run r' ops

-- From a valid ring, every sequence of calls of `write` and `read` returns the counts and the bytes
-- that a bounded queue returns which starts with the bytes of the ring and has its capacity.
pub run_refines :
    (ops : List Op) {r : Ringbuf} → IsValid r → run r ops ≡ Queue.run r.cap (contents r) ops
unfolding run Queue.run
run_refines [] v = refl
run_refines (put bytes ∷ ops) {r} v = rw (
  run_refines ops (write-IsValid bytes (length bytes) v),
  ← write_refines bytes (length bytes) v (omega arith),
  cap-write,
)
run_refines (get n ∷ ops) v = rw (run_refines ops (read-IsValid n v), ← read_refines n v, cap-read)
