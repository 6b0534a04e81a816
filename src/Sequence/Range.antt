-- ===== src/Sequence/Range.antt =====
-- macoro/sequence_range.h: half-open ranges of sequence numbers that may cross the wrap.
use macoro.Common.{
  ℕ, zero, suc, ◌+◌, ◌<◌, ◌≤◌, ◌≡◌, refl, ap, subst, ◌∙◌, Bool, true, false, ◌==◌, if◌then◌else◌,
  Option, none, some, List, [], ◌∷◌, ◌++◌, length, min, arith,
}
use macoro.Common.Word.{word_mod, add_word, sub_word}
use macoro.Common.Int.{to_unsigned, to_unsigned-to_signed}
use macoro.Sequence.Traits.{difference}

pub record SequenceRange : Type 0 where
  pub begin : ℕ
  pub end : ℕ

unfoldable pub front : SequenceRange → ℕ
front r = r.begin

unfoldable pub back : SequenceRange → ℕ
back r = sub_word r.end 1

unfoldable pub size : SequenceRange → ℕ
unfolding difference
size r = to_unsigned (difference r.end r.begin)

unfoldable pub empty : SequenceRange → Bool
empty r = r.begin == r.end

unfoldable pub index : SequenceRange → ℕ → ℕ
index r i = add_word r.begin i

unfoldable pub first : SequenceRange → ℕ → SequenceRange
first r count = record { begin = r.begin; end = add_word r.begin (min (size r) count) }

unfoldable pub skip : SequenceRange → ℕ → SequenceRange
skip r count = record { begin = add_word r.begin (min (size r) count); end = r.end }

-- `for (SEQUENCE seq : range)`: the iterator runs from `begin()` by `++` until it is `end()`. The
-- fuel counts the rounds; `none` means that it ran out.
unfoldable pub iterate : ℕ → ℕ → ℕ → Option (List ℕ)
iterate zero cur end = if cur == end then some [] else none
iterate (suc f) cur end = elim (cur == end) [
  | true ↦ some []
  | false ↦ elim (iterate f (add_word cur 1) end) [ none ↦ none | some rest ↦ some (cur ∷ rest) ]
]

-- The `n` sequence numbers from `w` on.
unfoldable pub run_from : ℕ → ℕ → List ℕ
run_from w zero = []
run_from w (suc n) = w ∷ run_from (add_word w 1) n

pub length-run_from : (w n : ℕ) → length (run_from w n) ≡ n
unfolding run_from
length-run_from w zero = refl
length-run_from w (suc n) = ap suc (length-run_from (add_word w 1) n)

pub add_word-suc : (w n : ℕ) → add_word w (suc n) ≡ add_word (add_word w 1) n
add_word-suc w n = omega arith

pub run_from-append :
    (w m n : ℕ) → w < word_mod → run_from w m ++ run_from (add_word w m) n ≡ run_from w (m + n)
unfolding run_from
run_from-append w zero n h =
    let e : add_word w 0 ≡ w = omega arith in let z : 0 + n ≡ n = omega arith in rw (e, z)
run_from-append w (suc m) n h =
    let z : suc m + n ≡ suc (m + n) = omega arith in
    rw (z, add_word-suc w m) (ap (◌∷◌ w) (run_from-append (add_word w 1) m n (omega arith)))

pub size-sub_word :
    (r : SequenceRange) → r.begin < word_mod → r.end < word_mod → size r ≡ sub_word r.end r.begin
unfolding size
size-sub_word r p q = to_unsigned-to_signed _ (omega arith)

iterate-run_from :
    (f n cur : ℕ)
    → n ≤ f
    → n < word_mod
    → cur < word_mod
    → iterate f cur (add_word cur n) ≡ some (run_from cur n)
unfolding iterate run_from
iterate-run_from zero zero cur h m p = ground arith
iterate-run_from zero (suc n) cur h m p = absurd (omega arith)
iterate-run_from (suc f) zero cur h m p = ground arith
iterate-run_from (suc f) (suc n) cur h m p = ground (
  arith,
  add_word-suc cur n,
  iterate-run_from f n (add_word cur 1) (omega arith) (omega arith) (omega arith),
)

-- A loop over a range ends after `size()` rounds, with any greater fuel too, and visits exactly the
-- `size()` sequence numbers from `front()` on, across the wrap as well.
pub iterate-range :
    (r : SequenceRange) (extra : ℕ)
    → r.begin < word_mod
    → r.end < word_mod
    → iterate (size r + extra) r.begin r.end ≡ some (run_from (front r) (size r))
unfolding front
iterate-range r extra p q = rw (size-sub_word r p q) (
    subst (λ e. iterate (count + extra) r.begin e ≡ some (run_from r.begin count)) whole
      (iterate-run_from _ count r.begin (omega arith) (omega arith) p))
  where
    count : ℕ
    count = sub_word r.end r.begin

    whole : add_word r.begin count ≡ r.end
    whole = omega arith

pub size-first :
    (r : SequenceRange) (count : ℕ)
    → r.begin < word_mod
    → r.end < word_mod
    → size (first r count) ≡ min (size r) count
unfolding first
size-first r count p q =
    size-sub_word (first r count) p (omega arith) ∙ omega (arith, size-sub_word r p q)

pub size-skip :
    (r : SequenceRange) (count : ℕ)
    → r.begin < word_mod
    → r.end < word_mod
    → size (skip r count) + min (size r) count ≡ size r
unfolding skip
size-skip r count p q =
    omega (arith, size-sub_word r p q, size-sub_word (skip r count) (omega arith) q)

-- `first(n)` and `skip(n)` cut a range in two: the numbers of the first part, then those of the
-- second, are the numbers of the range, and the first part has `n` of them or all.
pub first-skip :
    (r : SequenceRange) (count : ℕ)
    → r.begin < word_mod
    → r.end < word_mod
    → (run_from (front (first r count)) (size (first r count))
          ++ run_from (front (skip r count)) (size (skip r count))
        ≡ run_from (front r) (size r))
      × (size (first r count) ≡ min (size r) count)
unfolding front first skip
first-skip r count p q = (rw size-first_r glued, size-first_r)
  where
    size-first_r : size (first r count) ≡ min (size r) count
    size-first_r = size-first r count p q

    whole : min (size r) count + size (skip r count) ≡ size r
    whole = omega (arith, size-skip r count p q)

    glued :
        run_from r.begin (min (size r) count)
          ++ run_from (add_word r.begin (min (size r) count)) (size (skip r count))
        ≡ run_from r.begin (size r)
    glued = run_from-append r.begin _ _ p ∙ ap (run_from r.begin) whole
