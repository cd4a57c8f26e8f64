-- ===== src/Vector/Calls.antt =====
-- Histories of calls of a vector of mvector/mvector.h, and the same on lists.
use linux_cpp.Prelude.{
  ℕ, ◌≤◌, ◌≡◌, refl, sym, ap, Option, none, some, List, [], ◌∷◌, ◌++◌, length, length-take, get_or,
  ltb, lt→ltb, le→ltb, if◌then◌else◌, arith,
}
use linux_cpp.Vector.{Vector, Result, ok, throws, breaks, append, remove, insert}
use linux_cpp.Vector.Contents.{contents, IsValid}
use linux_cpp.Vector.Bounds.{append-contents}
use linux_cpp.Vector.Moves.{without_at}
use linux_cpp.Vector.Gap.{with_range}
use linux_cpp.Vector.Refine.{Removes, remove-Removes, Inserts}
use linux_cpp.Vector.History.{insert-Inserts}

-- a call of `append`, of `remove`, or of `insert` with its range and position
pub data Call (A : Type 0) : Type 0 where
  appends : A → Call A
  removes : ℕ → Call A
  inserts : List A → ℕ → Call A

module _ {A : Type 0} (junk : A) where
  abbrev pub given : Result (A × Vector A) → Result (List A × Vector A)
  given (ok (t, v)) = ok (t ∷ [], v)
  given throws = throws
  given breaks = breaks

  abbrev pub nothing_given : Result (Vector A) → Result (List A × Vector A)
  nothing_given (ok v) = ok ([], v)
  nothing_given throws = throws
  nothing_given breaks = breaks

  -- one call: the element that it hands out, if any, and the vector afterwards
  unfoldable pub call : Call A → Vector A → Result (List A × Vector A)
  call (appends t) v = ok ([], append junk t v)
  call (removes i) v = given (remove junk i v)
  call (inserts xs k) v = nothing_given (insert junk xs k v)

  -- the same call on a list, where `none` is an exception
  unfoldable pub list_call : Call A → List A → Option (List A × List A)
  list_call (appends t) ys = some ([], ys ++ (t ∷ []))
  list_call (removes i) ys =
      if ltb i (length ys) then some (get_or ys i junk ∷ [], without_at junk i ys) else none
  list_call (inserts xs k) ys = some ([], with_range junk xs k ys)

  -- the position of an `insert` is one of the list's, and its range is no longer than the list
  abbrev pub IsLegal : Call A → ℕ → Type 0
  IsLegal (appends t) n = Unit
  IsLegal (removes i) n = Unit
  IsLegal (inserts xs k) n = (k ≤ n) × (length xs ≤ n)

  -- what a call on a vector owes for a call on a list
  abbrev pub Agrees : Option (List A × List A) → Result (List A × Vector A) → Type 0
  Agrees o (ok (out, v)) = IsValid v × (o ≡ some (out, contents v))
  Agrees o throws = o ≡ none
  Agrees o breaks = ⊥

  length-contents : (v : Vector A) → IsValid v → length (contents v) ≡ v.sz
  length-contents v w = omega (arith, length-take v.sz v.block, w.fits, w.whole)

  removed :
      (i : ℕ) (v : Vector A) (r : Result (A × Vector A))
      → IsValid v
      → Removes junk v i r
      → Agrees (list_call (removes i) (contents v)) (given r)
  unfolding list_call
  removed i v (ok (t, v')) w (h, e, w', e') =
      rw (lt→ltb i (length (contents v)) (omega (arith, h, length-contents v w)), e, e') (w', refl)
  removed i v throws w h =
      rw (le→ltb i (length (contents v)) (omega (arith, h, length-contents v w))) refl
  removed i v breaks w h = h

  inserted_range :
      (xs : List A) (k : ℕ) (v : Vector A) (r : Result (Vector A))
      → length xs ≤ v.sz
      → Inserts junk v xs k r
      → Agrees (list_call (inserts xs k) (contents v)) (nothing_given r)
  unfolding list_call
  inserted_range xs k v (ok v') h (w, e) = (w, ap (λ ys. some ([], ys)) (sym e))
  inserted_range xs k v throws h z = absurd z
  inserted_range xs k v breaks h (a, b, c) = absurd (omega arith)

  appended :
      (t : A) (v : Vector A)
      → contents (append junk t v) ≡ contents v ++ (t ∷ [])
      → list_call (appends t) (contents v) ≡ some ([], contents (append junk t v))
  unfolding list_call
  appended t v e = ap (λ ys. some ([], ys)) (sym e)

  pub call-Agrees :
      (c : Call A) (v : Vector A)
      → IsValid v
      → IsLegal c (length (contents v))
      → Agrees (list_call c (contents v)) (call c v)
  unfolding call
  call-Agrees (appends t) v w l = let (a, b) = append-contents junk t v w in (a, appended t v b)
  call-Agrees (removes i) v w l = removed i v (remove junk i v) w (remove-Removes junk i v w)
  call-Agrees (inserts xs k) v w (a, b) =
      inserted_range xs k v (insert junk xs k v) (omega (arith, length-contents v w))
        (insert-Inserts junk xs k v w (omega (arith, length-contents v w)))

  abbrev pub joined : List A → Result (List A × Vector A) → Result (List A × Vector A)
  joined out (ok (out', v)) = ok (out ++ out', v)
  joined out throws = throws
  joined out breaks = breaks

  abbrev pub and_then :
      Result (List A × Vector A)
      → (Vector A → Result (List A × Vector A))
      → Result (List A × Vector A)
  and_then (ok (out, v)) k = joined out (k v)
  and_then throws k = throws
  and_then breaks k = breaks

  abbrev pub list_joined : List A → Option (List A × List A) → Option (List A × List A)
  list_joined out none = none
  list_joined out (some (out', ys)) = some (out ++ out', ys)

  abbrev pub list_then :
      Option (List A × List A) → (List A → Option (List A × List A)) → Option (List A × List A)
  list_then none k = none
  list_then (some (out, ys)) k = list_joined out (k ys)

  -- a history of calls up to the first exception: the elements handed out and the vector
  unfoldable pub calls : List (Call A) → Vector A → Result (List A × Vector A)
  calls [] v = ok ([], v)
  calls (c ∷ cs) v = and_then (call c v) (λ v'. calls cs v')

  pub list_calls : List (Call A) → List A → Option (List A × List A)
  list_calls [] ys = some ([], ys)
  list_calls (c ∷ cs) ys = list_then (list_call c ys) (λ ys'. list_calls cs ys')

  abbrev pub AllLegalAfter : (List A → Type 0) → Option (List A × List A) → Type 0
  AllLegalAfter P none = Unit
  AllLegalAfter P (some (out, ys)) = P ys

  unfoldable pub AllLegal : List (Call A) → List A → Type 0
  AllLegal [] ys = Unit
  AllLegal (c ∷ cs) ys = IsLegal c (length ys) × AllLegalAfter (AllLegal cs) (list_call c ys)

  joined-Agrees :
      (out : List A) (o : Option (List A × List A)) (r : Result (List A × Vector A))
      → Agrees o r
      → Agrees (list_joined out o) (joined out r)
  joined-Agrees out o (ok (out', v)) (w, e) = (w, ap (list_joined out) e)
  joined-Agrees out o throws e = ap (list_joined out) e
  joined-Agrees out o breaks h = h

  then-Agrees :
      (cs : List (Call A)) (o : Option (List A × List A)) (r : Result (List A × Vector A))
      → Agrees o r
      → AllLegalAfter (AllLegal cs) o
      → ((v : Vector A)
          → IsValid v
          → AllLegal cs (contents v)
          → Agrees (list_calls cs (contents v)) (calls cs v))
      → Agrees (list_then o (λ ys. list_calls cs ys)) (and_then r (λ v. calls cs v))
  then-Agrees cs o (ok (out, v)) (w, e) l h =
      rw e (joined-Agrees out (list_calls cs (contents v)) (calls cs v) (h v w (rw e at l)))
  then-Agrees cs o throws e l h = rw e refl
  then-Agrees cs o breaks z l h = absurd z

  -- Any history of calls of `append`, `remove` and `insert` on a valid vector, in which each position of
  -- an `insert` is one of the vector's and its range is no longer than the vector, hands out what the
  -- same calls on the list of elements hand out, leaves a valid vector with that list's elements, and
  -- throws exactly when a `remove` is beyond the list. It never writes behind the block.
  pub calls-Agrees :
      (cs : List (Call A)) (v : Vector A)
      → IsValid v
      → AllLegal cs (contents v)
      → Agrees (list_calls cs (contents v)) (calls cs v)
  unfolding calls list_calls AllLegal
  calls-Agrees [] v w l = (w, refl)
  calls-Agrees (c ∷ cs) v w (a, b) =
      then-Agrees cs (list_call c (contents v)) (call c v) (call-Agrees c v w a) b
        (λ v' w' l'. calls-Agrees cs v' w' l')
