-- ===== src/Ringbuf/Queue.antt =====
-- What ringbuf/ringbuf.h promises: a queue of at most `cap` bytes, oldest first, whose calls take
-- effect whole or not at all.
use linux_cpp.Prelude.{
  ℕ, ◌-◌, List, [], ◌∷◌, ◌++◌, length, take, drop, ltb, ◌==◌, ◌||◌, if◌then◌else◌,
}

pub data Op : Type 0 where
  put : List ℕ → Op
  get : ℕ → Op

abbrev pub Reply : Type 0
Reply = ℕ × List ℕ

unfoldable pub read : List ℕ → ℕ → ℕ × List ℕ × List ℕ
read q n = if ltb (length q) n || n == 0 then (0, [], q) else (n, take n q, drop n q)

module _ (cap : ℕ) where
  unfoldable pub write : List ℕ → List ℕ → ℕ → ℕ × List ℕ
  write q bytes n = if ltb (cap - length q) n || n == 0 then (0, q) else (n, q ++ take n bytes)

  unfoldable pub run : List ℕ → List Op → List Reply
  run q [] = []
  run q (put bytes ∷ ops) = let (k, q') = write q bytes (length bytes) in (k, []) ∷ run q' ops
  run q (get n ∷ ops) = let (k, out, q') = read q n in (k, out) ∷ run q' ops
