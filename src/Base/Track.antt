-- ===== src/Base/Track.antt =====
-- An observer of a log: a state that each entry changes or contradicts.
use mathlib.Core.Path.{◌≡◌, refl, sym, ap, ◌∙◌, fun_ext}
use mathlib.Core.Option.{Option, none, some}
use mathlib.Core.List.{List, [], ◌∷◌, ◌++◌, append-nil, append_assoc}

abbrev pub and_then : {S : Type 0} → Option S → (S → Option S) → Option S
and_then none f = none
and_then (some s) f = f s

and_then_assoc :
    {S : Type 0} (o : Option S) (f g : S → Option S)
    → and_then (and_then o f) g ≡ and_then o (λ s. and_then (f s) g)
and_then_assoc none f g = refl
and_then_assoc (some s) f g = refl

module _ {V S : Type 0} (hear : V → S → Option S) where
  -- The observer's state after the log; `none` if an entry contradicts it.
  unfoldable pub track : List V → S → Option S
  track [] s = some s
  track (e ∷ es) s = and_then (hear e s) (track es)

  pub track-append :
      (xs ys : List V) (s : S) → track (xs ++ ys) s ≡ and_then (track xs s) (track ys)
  unfolding track
  track-append [] ys s = refl
  track-append (x ∷ xs) ys s =
      ap (and_then (hear x s)) (fun_ext (track-append xs ys))
      ∙ sym (and_then_assoc (hear x s) (track xs) (track ys))

  -- A step of a log beside a state: the new entries lead from the one state to the other.
  pub Follows : List V × S → List V × S → Type 0
  Follows a b = (es : List V) × (b.0 ≡ a.0 ++ es) × (track es a.1 ≡ some b.1)

  pub follows :
      (a b : List V × S) (es : List V) → b.0 ≡ a.0 ++ es → track es a.1 ≡ some b.1 → Follows a b
  unfolding Follows
  follows a b es out t = (es, out, t)

  pub Follows-refl : (a b : List V × S) → b.0 ≡ a.0 → b.1 ≡ a.1 → Follows a b
  unfolding Follows track
  Follows-refl a b out e = ([], out ∙ sym (append-nil a.0), ap some (sym e))

  pub Follows-trans : (a b c : List V × S) → Follows a b → Follows b c → Follows a c
  unfolding Follows
  Follows-trans a b c (es, out, t) (fs, out', t') = (
    es ++ fs,
    out' ∙ ap (λ (l : List V). l ++ fs) out ∙ append_assoc a.0 es fs,
    track-append es fs a.1 ∙ ap (λ (o : Option S). and_then o (track fs)) t ∙ t',
  )

  pub track-Follows :
      (start : S) (a b : List V × S)
      → Follows a b
      → track a.0 start ≡ some a.1
      → track b.0 start ≡ some b.1
  unfolding Follows
  track-Follows start a b (es, out, t) h =
      ap (λ (l : List V). track l start) out
      ∙ track-append a.0 es start
      ∙ ap (λ (o : Option S). and_then o (track es)) h
      ∙ t
