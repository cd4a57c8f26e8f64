-- ===== src/Timer/Place.antt =====
-- Where the timers of timer-wheel/test.cpp have to stand to be called in time.
use linux_cpp.Prelude.{
  ℕ, suc, ◌+◌, ◌*◌, ◌/◌, ◌%◌, ◌^◌, ◌≤◌, ◌<◌, ◌≡◌, ◌≢◌, ◌⊎◌, if◌then◌else◌, ltb, arith,
}
use linux_cpp.Timer.{Slot, in_tv, in_tv1, in_tv2, slot_to_add, slot_to_move, minus64}
use linux_cpp.Timer.Slots.{IsSlot}

-- A timer that expires at `e` and stands in the slot before the round of the time `j` is called at
-- the time `d`.
abbrev pub IsPlaced : ℕ → ℕ → ℕ → Slot → Type 0
IsPlaced j e d (in_tv i) = (i ≡ d % 8) × (j ≤ d) × (d < j + 8)
IsPlaced j e d (in_tv1 i) =
    (i ≡ e / 8 % 8) × (d ≡ e) × ((j + 7) / 8 * 8 ≤ e) × (e < (j + 7) / 8 * 8 + 64)
IsPlaced j e d (in_tv2 i) = (i ≡ e / 64 % 4) × (d ≡ e) × ((j + 63) / 64 * 64 ≤ e)

-- The same after the cascades of the round: only the lowest array is still that of the time `j`.
abbrev pub IsSettled : ℕ → ℕ → ℕ → Slot → Type 0
IsSettled j e d (in_tv i) = IsPlaced j e d (in_tv i)
IsSettled j e d (in_tv1 i) = IsPlaced (suc j) e d (in_tv1 i)
IsSettled j e d (in_tv2 i) = IsPlaced (suc j) e d (in_tv2 i)

-- the time at which a timer is called when the rounds begin at `start`
abbrev pub due : ℕ → ℕ → ℕ
due start e = if ltb e start then e + 8 else e

pub slot_to_add-IsPlaced :
    (start e : ℕ)
    → start < 8
    → e < 2 ^ 64
    → IsPlaced start e (due start e) (slot_to_add (minus64 e 0))
unfolding slot_to_add
slot_to_add-IsPlaced start e h w = ground arith

pub slot_to_add-IsSlot : (i : ℕ) → IsSlot (slot_to_add i)
unfolding slot_to_add
slot_to_add-IsSlot i = ground arith

pub slot_to_move-IsSlot : (e i : ℕ) → IsSlot (slot_to_move e i)
unfolding slot_to_move
slot_to_move-IsSlot e i = ground arith

pub moved1-IsSettled :
    (j e : ℕ)
    → j < 2 ^ 32
    → e < 2 ^ 64
    → j % 8 ≡ 0
    → IsPlaced j e e (in_tv1 (j / 8 % 8))
    → IsSettled j e e (slot_to_move e (minus64 e (j % 2 ^ 32)))
unfolding slot_to_move
moved1-IsSettled j e a b c p = ground arith

pub moved2-IsSettled :
    (j e : ℕ)
    → j < 2 ^ 32
    → e < 2 ^ 64
    → j % 64 ≡ 0
    → IsPlaced j e e (in_tv2 (j / 64 % 4))
    → IsSettled j e e (slot_to_move e (minus64 e (j % 2 ^ 32)))
unfolding slot_to_move
moved2-IsSettled j e a b c p = ground arith

pub stays1-IsSettled :
    (j e d i : ℕ)
    → (j % 8 ≢ 0) ⊎ (j / 8 % 8 ≢ i)
    → IsPlaced j e d (in_tv1 i)
    → IsSettled j e d (in_tv1 i)
stays1-IsSettled j e d i n p = ground arith

pub stays2-IsSettled :
    (j e d i : ℕ)
    → (j % 64 ≢ 0) ⊎ (j / 64 % 4 ≢ i)
    → IsPlaced j e d (in_tv2 i)
    → IsSettled j e d (in_tv2 i)
stays2-IsSettled j e d i n p = ground arith
