-- ===== src/Timer.antt =====
-- timer-wheel/test.cpp: a timer wheel of three levels with 8, 8 and 4 slots. A slot is the list of its
-- timers from the head on, where `list_add` puts a new one; `list_switch_head` hands a whole slot
-- over in its order. A call holds the lock from its start to its end and is one step. `unsigned long`
-- has 64 bits, and the `unsigned` time of `cascade` 32.
pub mod Slots
pub mod Place
pub mod Move
pub mod Settle
pub mod Fire
pub mod Count
mod Tests
use linux_cpp.Prelude.{
  ℕ, zero, suc, ◌+◌, ◌-◌, ◌*◌, ◌/◌, ◌%◌, ◌^◌, List, [], ◌∷◌, ◌++◌, ◌==◌, ltb, if◌then◌else◌,
  replicate, get_or, set,
}

pub record Timer : Type 0 where
  pub expires : ℕ
  pub payload : ℕ

pub record Base : Type 0 where
  pub tv : List (List Timer)
  pub tv1 : List (List Timer)
  pub tv2 : List (List Timer)

-- a slot of one of the three arrays
pub data Slot : Type 0 where
  in_tv in_tv1 in_tv2 : ℕ → Slot

-- `init_tv_base`
pub init_tv_base : Base
init_tv_base = record { tv = replicate 8 []; tv1 = replicate 8 []; tv2 = replicate 4 [] }

-- `list_add` to a slot of an array
abbrev pub add_at : List (List Timer) → ℕ → Timer → List (List Timer)
add_at slots i t = set slots i (t ∷ get_or slots i [])

pub list_add : Base → Slot → Timer → Base
list_add b (in_tv i) t = record b { tv = add_at b.tv i t }
list_add b (in_tv1 i) t = record b { tv1 = add_at b.tv1 i t }
list_add b (in_tv2 i) t = record b { tv2 = add_at b.tv2 i t }

-- `a - b` of two `unsigned long`
abbrev pub minus64 : ℕ → ℕ → ℕ
minus64 a b = (a + 2 ^ 64 - b) % 2 ^ 64

-- the slot that `add_timer` takes
pub slot_to_add : ℕ → Slot
slot_to_add index =
    if ltb index 8
    then in_tv (index % 8)
    else if ltb index 64
    then in_tv1 (index / 8 % 8)
    else in_tv2 (index / 64 % 4)

pub add_timer : Timer → Base → ℕ → Base
add_timer t b jeffies = list_add b (slot_to_add (minus64 t.expires jeffies)) t

-- the slot that `cascade` takes
pub slot_to_move : ℕ → ℕ → Slot
slot_to_move expires offset =
    if ltb offset 8
    then in_tv (expires % 8)
    else if ltb offset 64
    then in_tv1 (expires / 8 % 8)
    else in_tv2 (expires / 64 % 4)

-- the loop of `cascade` over the list that it took from its slot
pub cascade_loop : List Timer → ℕ → Base → Base
cascade_loop [] jeffies b = b
cascade_loop (t ∷ ts) jeffies b =
    cascade_loop ts jeffies
      (list_add b (slot_to_move t.expires (minus64 t.expires (jeffies % 2 ^ 32))) t)

-- `cascade` of `tv1` and of `tv2`
pub cascade1 : ℕ → ℕ → Base → Base
cascade1 index jeffies b =
    cascade_loop (get_or b.tv1 index []) jeffies (record b { tv1 = set b.tv1 index [] })

pub cascade2 : ℕ → ℕ → Base → Base
cascade2 index jeffies b =
    cascade_loop (get_or b.tv2 index []) jeffies (record b { tv2 = set b.tv2 index [] })

-- the cascades of one round of the loop of `main`
pub cascades : ℕ → Base → Base
cascades jeffies b =
    let b1 = cascade1 (jeffies / 8 % 8) jeffies b in
    if jeffies % 8 == 0
    then if jeffies / 8 % 8 == 0 then cascade2 (jeffies / 64 % 4) jeffies b1 else b1
    else b

-- one round of the loop: the timers whose function it calls, in order, and the base afterwards
pub round : ℕ → Base → List Timer × Base
round jeffies b =
    let b' = cascades jeffies b in
    (get_or b'.tv (jeffies % 8) [], record b' { tv = set b'.tv (jeffies % 8) [] })

-- the time of a call with the timer
pub record Call : Type 0 where
  pub time : ℕ
  pub timer : Timer

abbrev pub calls_at : ℕ → List Timer → List Call
calls_at jeffies [] = []
calls_at jeffies (t ∷ ts) = record { time = jeffies; timer = t } ∷ calls_at jeffies ts

-- `rounds` rounds of the loop from the time `jeffies` on
pub run : ℕ → ℕ → Base → List Call × Base
run zero jeffies b = ([], b)
run (suc rounds) jeffies b =
    let (fired, b') = round jeffies b in
    let (calls, b'') = run rounds (suc jeffies) b' in (calls_at jeffies fired ++ calls, b'')

-- the first loop of `main`: it adds the timers one by one
pub add_all : List Timer → Base → Base
add_all [] b = b
add_all (t ∷ ts) b = add_all ts (add_timer t b 0)
