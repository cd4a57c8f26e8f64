-- ===== src/Vector.antt =====
-- mvector/mvector.h: a vector that grows by copying. A pointer into the block is its offset from
-- `_M_start`; the block is the list of its elements, and `junk` is what `new T[ n ]` puts there. The
-- range that `insert` copies from lies in another block. `emplace`, which returns nothing and goes
-- backwards from `begin()`, the texts and the unused `__insert_resize` are left out.
pub mod Contents
pub mod Bounds
pub mod Moves
pub mod Gap
pub mod Refine
pub mod History
pub mod Calls
mod Tests
use linux_cpp.Prelude.{
  ℕ, zero, suc, ◌+◌, ◌-◌, max, List, [], ◌∷◌, ◌++◌, length, take, drop, replicate, set, get_or,
  get_elem?, copy_into, Option, none, some, ltb, leb, ◌==◌, if◌then◌else◌,
}

pub record Vector (A : Type 0) : Type 0 where
  pub block : List A
  pub sz : ℕ
  pub cap : ℕ
  pub end : ℕ
  pub storage : ℕ

-- a call that returns, throws `out_of_range`, or writes behind the block
pub data Result (A : Type 0) : Type 0 where
  ok : A → Result A
  throws : Result A
  breaks : Result A

module _ {A : Type 0} where
  -- `mvector()`
  pub empty_vector : Vector A
  empty_vector = record { block = []; sz = 0; cap = 0; end = 0; storage = 0 }

  -- `mvector( size_t sz )`, which asserts that `sz` is not 0
  pub sized : A → ℕ → Vector A
  sized junk n = record { block = replicate n junk; sz = 0; cap = n; end = 0; storage = n }

  pub resize : A → ℕ → Vector A → Vector A
  resize junk n v =
      let len = max v.sz (max n 1) in
      let new_cap = v.sz + len in
      record {
        block = copy_into (replicate new_cap junk) 0 (take v.end v.block);
        sz = v.sz;
        cap = new_cap;
        end = v.sz;
        storage = new_cap;
      }

  -- `append` and `emplace_back`
  pub append : A → A → Vector A → Vector A
  append junk t v =
      let r = if v.sz == v.cap then resize junk 1 v else v in
      record r { block = set r.block r.end t; end = r.end + 1; sz = r.sz + 1 }

  -- `operator[]`
  pub at : Vector A → ℕ → Result (Option A)
  at v index = if ltb index v.sz then ok (get_elem? v.block index) else throws

  -- `remove`: the element that was removed, and the vector afterwards
  pub remove : A → ℕ → Vector A → Result (A × Vector A)
  remove junk index v =
      let t = get_or v.block index junk in
      let moved = copy_into v.block index (take (v.end - (index + 1)) (drop (index + 1) v.block)) in
      if leb v.sz index
      then throws
      else ok (
        t,
        record v {
          block = if index == v.sz - 1 then v.block else set moved (v.end - 1) t;
          end = v.end - 1;
          sz = v.sz - 1;
        },
      )

  -- the part of `insert` behind the test of the room
  pub insert_at : List A → ℕ → Vector A → Result (Vector A)
  insert_at xs offset v =
      let n = length xs in
      let moved = copy_into v.block (offset + n) (take (v.end - offset) (drop offset v.block)) in
      if ltb v.cap (v.end + n)
      then breaks
      else ok (record v { block = copy_into moved offset xs; sz = v.sz + n; end = v.end + n })

  -- `insert` of a range before the position `offset`
  pub insert : A → List A → ℕ → Vector A → Result (Vector A)
  insert junk xs offset v =
      let n = length xs in
      if n == 0
      then ok v
      else insert_at xs offset
          (if leb v.cap (v.sz + n) then resize junk (v.sz + n - v.cap + 1) v else v)
