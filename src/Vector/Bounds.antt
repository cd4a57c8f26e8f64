-- ===== src/Vector/Bounds.antt =====
-- The operations of mvector/mvector.h stay within the block, and what they make of the elements.
use linux_cpp.Prelude.{
  ℕ, ◌+◌, ◌<◌, ◌≡◌, refl, sym, ap, ◌∙◌, max, [], ◌∷◌, ◌++◌, length, length-take, length-set,
  length-replicate, length-copy_into, take, replicate, get_or, set, copy_into, get_or-take,
  get_or-copy_into_in, ◌==◌, if_elim, ==→ne, arith,
}
use linux_cpp.Vector.{Vector, resize, append}
use linux_cpp.Vector.Contents.{contents, IsValid, list_ext, take-set}

module _ {A : Type 0} (junk : A) where
  -- `resize` keeps the elements; the new room is what it doubles or what was asked for
  pub resize-contents : (n : ℕ) (v : Vector A) → IsValid v → contents (resize junk n v) ≡ contents v
  unfolding resize
  resize-contents n v w =
      let cap' = v.sz + max v.sz (max n 1) in
      let old = take v.end v.block in
      let buf = replicate cap' junk in
      let new = copy_into buf 0 old in
      let old_length : length old ≡ v.sz =
        omega (arith, length-take v.end v.block, w.ends, w.fits, w.whole) in
      let buf_length = length-replicate cap' junk in
      list_ext (take v.sz new) (take v.sz v.block) junk
        (omega (
          arith,
          length-take v.sz new,
          length-take v.sz v.block,
          length-copy_into old buf 0,
          buf_length,
          w.fits,
          w.whole,
        ))
        (λ j l.
          let u : j < v.sz = omega (arith, length-take v.sz new) in
          get_or-take v.sz j new junk u
          ∙ ap (λ k. get_or new k junk) (omega arith)
          ∙ get_or-copy_into_in old buf 0 j junk (omega arith) (omega (arith, buf_length))
          ∙ get_or-take v.end j v.block junk (omega (arith, w.ends))
          ∙ sym (get_or-take v.sz j v.block junk u))

  pub resize-IsValid : (n : ℕ) (v : Vector A) → IsValid v → IsValid (resize junk n v)
  unfolding resize
  resize-IsValid n v w = record {
    whole =
        length-copy_into (take v.end v.block) (replicate (v.sz + max v.sz (max n 1)) junk) 0
        ∙ length-replicate (v.sz + max v.sz (max n 1)) junk;
    fits = omega arith;
    ends = refl;
    stored = refl;
  }

  pub resize_grows : (n : ℕ) (v : Vector A) → (resize junk n v).sz < (resize junk n v).cap
  unfolding resize
  resize_grows n v = omega arith

  push-contents :
      (t : A) (v : Vector A)
      → IsValid v
      → v.sz < v.cap
      → IsValid (record v { block = set v.block v.end t; end = v.end + 1; sz = v.sz + 1 })
        × (take (v.sz + 1) (set v.block v.end t) ≡ contents v ++ (t ∷ []))
  push-contents t v w h = (
    record {
      whole = length-set v.block v.end t ∙ w.whole;
      fits = omega arith;
      ends = omega (arith, w.ends);
      stored = w.stored;
    },
    ap (λ n. take (v.sz + 1) (set v.block n t)) w.ends
        ∙ take-set v.block v.sz t (omega (arith, w.whole)),
  )

  -- `append` never writes behind the block: it adds the element at the end
  pub append-contents :
      (t : A) (v : Vector A)
      → IsValid v
      → IsValid (append junk t v) × (contents (append junk t v) ≡ contents v ++ (t ∷ []))
  unfolding append
  append-contents t v w =
      if_elim
        (λ (r : Vector A).
          IsValid (record r { block = set r.block r.end t; end = r.end + 1; sz = r.sz + 1 })
          × (take (r.sz + 1) (set r.block r.end t) ≡ contents v ++ (t ∷ [])))
        (v.sz == v.cap) (resize junk 1 v) v
        (λ e.
          let (a, b) =
            push-contents t (resize junk 1 v) (resize-IsValid 1 v w) (resize_grows 1 v) in
          (a, b ∙ ap (λ xs. xs ++ (t ∷ [])) (resize-contents 1 v w)))
        (λ e. push-contents t v w (omega (arith, w.fits, ==→ne v.sz v.cap e)))
