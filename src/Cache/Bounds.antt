-- ===== src/Cache/Bounds.antt =====
-- cache/cache.h: `__setupcache`, and the addresses of the objects of a slab.
use native.Mathlib.Nat.{mul-le-mul_right, div-mul-le_self, lt-div-mul-add, mul-div_cancel}
use mathlib.Core.Path.{subst}
use linux_cpp.Prelude.{
  ℕ, zero, suc, ◌+◌, ◌*◌, ◌/◌, ◌%◌, ◌≤◌, ◌<◌, ◌≡◌, refl, ltb, lt→ltb, ltb→lt, ltb→le, if_elim,
  arith, ◌∙◌, ap,
}
use linux_cpp.Cache.{Slab, Sizes, objects, fit, setup, get_slab, index_to_obj, obj_to_index}

-- a slab of one page has room for its header, its `buf_ctl` and its objects
pub record IsSizes (k : Sizes) : Type 0 where
  pub sized : 0 < k.size
  pub some_object : 0 < k.num
  pub below_end : k.num < 1024
  pub room : k.slabsize + k.num * k.size ≤ 1024

share : (n m s : ℕ) → n * (s + 4) ≤ m → n * s + n * 4 ≤ m
share n m s h = omega (arith, h)

pub some_quotient : (m q d : ℕ) → m < q * d + d → d ≤ m → 0 < q
some_quotient m zero d h l = absurd (omega (arith, h, l))
some_quotient m (suc q) d h l = omega arith

pub positive : (size : ℕ) → size ≤ 988 → 0 < 992 / (size + 4)
positive size l =
    some_quotient 992 (992 / (size + 4)) (size + 4) (lt-div-mul-add (omega arith)) (omega arith)

pub fit_one : (size : ℕ) → size ≤ 988 → fit 10 1 size ≡ (992 / (size + 4), 1)
unfolding fit
fit_one size l = rw (lt→ltb 0 (992 / (size + 4)) (positive size l)) refl

pub setup-IsSizes : (size batchcount : ℕ) → 0 < size → size ≤ 988 → IsSizes (setup size batchcount)
unfolding setup
setup-IsSizes size batchcount h l =
    let q = 992 / (size + 4) in
    let room : q * size + q * 4 ≤ 992 = share q 992 size (div-mul-le_self 992 (size + 4)) in
    rw (fit_one size l) record {
      sized = h;
      some_object = positive size l;
      below_end = omega (arith, room);
      room = omega (arith, room);
    }

pub fit_some : (rounds n size : ℕ) → 0 < objects size (n + rounds) → 0 < (fit (suc rounds) n size).0
unfolding fit
fit_some zero n size h =
    if_elim {A = ℕ × ℕ} (λ r. 0 < r.0) (ltb 0 (objects size n)) _ _ (λ e. ltb→lt _ _ e)
      (λ e.
        let still : 0 < objects size n = subst (λ m. 0 < objects size m) (omega arith) h in
        absurd (omega (arith, still, ltb→le _ _ e)))
fit_some (suc rounds) n size h =
    if_elim {A = ℕ × ℕ} (λ r. 0 < r.0) (ltb 0 (objects size n)) _ _ (λ e. ltb→lt _ _ e)
      (λ e. fit_some rounds (suc n) size (subst (λ m. 0 < objects size m) (omega arith) h))

pub row : (i n s : ℕ) → i < n → i * s + s ≤ n * s
row i n s h = let wide : suc i * s ≤ n * s = mul-le-mul_right s (omega arith) in omega (arith, wide)

module _ (k : Sizes) (w : IsSizes k) (s : Slab) (i : ℕ) (h : i < k.num)
    (a : s.address % 1024 ≡ 0) where
  pub index_to_obj_end : index_to_obj k i s + k.size ≤ s.address + 1024
  index_to_obj_end = omega (arith, row i k.num k.size h, w.room)

  pub get_slab-index_to_obj : get_slab (index_to_obj k i s) ≡ s.address
  get_slab-index_to_obj = omega (arith, index_to_obj_end, w.sized, a)

  pub obj_to_index-index_to_obj : obj_to_index k (index_to_obj k i s) s ≡ i
  obj_to_index-index_to_obj = ap (λ n. n / k.size) (omega arith) ∙ mul-div_cancel i w.sized
