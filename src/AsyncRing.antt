-- ===== src/AsyncRing.antt =====
-- async-ring-buffer: ring-buffer.h, ring-buffer.cpp, ring-buffer-flush.cpp and file-buffer.h. One
-- producer thread puts payloads of 16 bytes into a `RingBuffer`, and the thread of `RingBufferFlush`
-- writes them to the file. A pointer to a payload in a buffer stands for the payload, a number; the
-- file stands for the payloads written. A step is what a thread does between two points at which the
-- other may see it. `__stop`, the manager and the printing are left out.
pub mod Inv
pub mod ByProducer
pub mod ByFlusher
pub mod Run
pub mod Sleep
mod Tests
use linux_cpp.Prelude.{
  ℕ, zero, suc, ◌+◌, ◌*◌, Bool, true, false, ◌||◌, Option, none, some, List, [], ◌∷◌, ◌++◌, length,
  set, replicate, ltb, if◌then◌else◌,
}

-- `BUF_SIZE`, and `sizeof( payload_t )`
abbrev pub buf_size : ℕ
buf_size = 1024

abbrev pub value_size : ℕ
value_size = 16

-- `RingBufferHeader` with its `RingBufferBase`
pub record Buffer : Type 0 where
  pub write_pos : ℕ
  pub m_index : ℕ
  pub m_header : List (Option ℕ)

abbrev pub new_buffer : Buffer
new_buffer = record { write_pos = 0; m_index = 0; m_header = replicate buf_size none }

-- what `emplace_back` does: it returns a null pointer, it stores the payload, or `at` throws
pub data Outcome : Type 0 where
  null : Outcome
  stored : Buffer → Outcome
  thrown : Outcome

-- `RingBufferBase::request`
pub request : ℕ → Buffer → Option Buffer
request size b =
    if ltb buf_size (b.write_pos + size)
    then none
    else some (record b { write_pos = b.write_pos + size })

abbrev pub get_index : Buffer → ℕ × Buffer
get_index b = (b.m_index, record b { m_index = suc b.m_index })

-- the rest of `RingBufferHeader::emplace_back`, behind the request
pub put_header : ℕ → Option Buffer → Outcome
put_header v none = null
put_header v (some b) =
    let (id, c) = get_index b in
    if ltb id (length c.m_header)
    then stored (record c { m_header = set c.m_header id (some v) })
    else thrown

-- `RingBufferHeader::emplace_back`
pub emplace_back : ℕ → Buffer → Outcome
unfolding request put_header
emplace_back v b = put_header v (request value_size b)

-- the payloads that the loop of `RingBufferHeader::flush` passes, at the first `n` headers
pub payloads : List (Option ℕ) → ℕ → List ℕ
payloads hs zero = []
payloads [] (suc n) = []
payloads (none ∷ hs) (suc n) = payloads hs n
payloads (some v ∷ hs) (suc n) = v ∷ payloads hs n

-- `__reset` and `m_index = 0`; the headers stay
abbrev pub reset : Buffer → Buffer
reset b = record b { write_pos = 0; m_index = 0 }

-- `FileBuffer`: the payloads in the file and those in `m_buffer`
pub record FileBuffer : Type 0 where
  pub written : List ℕ
  pub held : List ℕ
  pub m_nbytes : ℕ
  pub m_vecpos : List ℕ

-- `FileBuffer::overflow`
pub overflow_file : FileBuffer → FileBuffer
overflow_file f = elim f.held [
  | [] ↦ f
  | v ∷ vs ↦ record {
    written = f.written ++ (v ∷ vs);
    held = [];
    m_nbytes = f.m_nbytes + length (v ∷ vs) * value_size;
    m_vecpos = f.m_vecpos ++ (f.m_nbytes ∷ []);
  }
]

-- `FileBuffer::write`
pub write : ℕ → FileBuffer → FileBuffer
unfolding overflow_file
write v f =
    let g = if ltb buf_size (length f.held * value_size + value_size) then overflow_file f else f in
    record g { held = g.held ++ (v ∷ []) }

pub write_all : List ℕ → FileBuffer → FileBuffer
unfolding write
write_all [] f = f
write_all (v ∷ vs) f = write_all vs (write v f)

-- The producer: between two payloads, in `overflow` with the payload before it reads the status, after
-- it found the status busy, in `m_cv.wait`, at the second try, and after an exception
pub data Producer : Type 0 where
  ready : Producer
  checking : ℕ → Producer
  pausing : ℕ → Producer
  sleeping : ℕ → Producer
  retrying : ℕ → Producer
  failed : Producer

-- The thread of `__do_flush`: at the start of its loop, in `m_cv.wait`, with some buffers of its list
-- left, in `flush` of the first of them, and behind it
pub data Flusher : Type 0 where
  looking : Flusher
  idle : Flusher
  handling : ℕ → Flusher
  flushing : ℕ → Flusher
  clearing : ℕ → Flusher

-- The ring with its two buffers and the bits of its status, how often it is in the list of the flusher,
-- the file, the threads, and the payloads that the producer has still to put
pub record State : Type 0 where
  pub buffer : Buffer
  pub swapped : Buffer
  pub sche : Bool
  pub sync : Bool
  pub listed : ℕ
  pub file : FileBuffer
  pub producer : Producer
  pub todo : List ℕ
  pub flusher : Flusher

pub start : List ℕ → State
start vs = record {
  buffer = new_buffer;
  swapped = new_buffer;
  sche = false;
  sync = false;
  listed = 0;
  file = record { written = []; held = []; m_nbytes = 0; m_vecpos = [] };
  producer = ready;
  todo = vs;
  flusher = looking;
}

-- the producer after a try to store `v`, which goes on with `p` where the buffer is full
pub after_try : Outcome → Producer → State → State
after_try null p s = record s { producer = p }
after_try (stored b) p s = record s { buffer = b; producer = ready }
after_try thrown p s = record s { producer = failed }

-- `m_cv.notify_one` of the flusher
abbrev pub wake_flusher : Flusher → Flusher
wake_flusher looking = looking
wake_flusher idle = looking
wake_flusher (handling n) = handling n
wake_flusher (flushing n) = flushing n
wake_flusher (clearing n) = clearing n

-- `m_cv.notify_one` of the ring
abbrev pub wake_producer : Producer → Producer
wake_producer ready = ready
wake_producer (checking v) = checking v
wake_producer (pausing v) = pausing v
wake_producer (sleeping v) = checking v
wake_producer (retrying v) = retrying v
wake_producer failed = failed

-- `RingBuffer::swap`
abbrev pub swap : State → State
swap s = record s { buffer = s.swapped; swapped = s.buffer }

-- `request_flush`
abbrev pub request_flush : State → State
request_flush s = record s { listed = suc s.listed; flusher = wake_flusher s.flusher }

-- `overflow`, with the payload `v`, up to its wait or to the second try
pub overflow : ℕ → State → State
overflow v s =
    if s.sche || s.sync
    then record s { producer = pausing v }
    else record (request_flush (record (swap s) { sche = true })) { producer = retrying v }

-- one step of `RingBuffer::emplace_back` with `overflow`; a payload that the second try does not store
-- is dropped
pub producer_step : Producer → List ℕ → State → State
unfolding emplace_back after_try overflow
producer_step ready [] s = s
producer_step ready (v ∷ vs) s =
    after_try (emplace_back v s.buffer) (checking v) (record s { todo = vs })
producer_step (checking v) _ s = overflow v s
producer_step (pausing v) _ s = record s { producer = sleeping v }
producer_step (sleeping v) _ s = s
producer_step (retrying v) _ s = after_try (emplace_back v s.buffer) ready s
producer_step failed _ s = s

-- one step of `__do_flush`
pub flusher_step : Flusher → State → State
unfolding payloads write_all
flusher_step looking s = elim s.listed [
  | zero ↦ record s { flusher = idle }
  | suc n ↦ record s { listed = 0; flusher = handling (suc n) }
]
flusher_step idle s = s
flusher_step (handling zero) s = record s { flusher = looking }
flusher_step (handling (suc n)) s =
    if s.sche
    then record s { sche = false; sync = true; flusher = flushing n }
    else record s { flusher = handling n }
flusher_step (flushing n) s = record s {
  file = write_all (payloads s.swapped.m_header s.swapped.m_index) s.file;
  swapped = reset s.swapped;
  flusher = clearing n;
}
flusher_step (clearing n) s = record s {
  sync = false;
  producer = wake_producer s.producer;
  flusher = handling n;
}

-- a thread runs, or both wake up with no notification
pub data Turn : Type 0 where
  produce : Turn
  flush : Turn
  rouse : Turn

pub step : Turn → State → State
unfolding producer_step flusher_step
step produce s = producer_step s.producer s.todo s
step flush s = flusher_step s.flusher s
step rouse s = record s { producer = wake_producer s.producer; flusher = wake_flusher s.flusher }

pub run : List Turn → State → State
unfolding step
run [] s = s
run (t ∷ ts) s = run ts (step t s)
