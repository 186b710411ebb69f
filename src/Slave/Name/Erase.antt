-- ===== src/Slave/Name/Erase.antt =====
-- The loop that erases a number from the end of a name.
use mathlib.Core.List.{append-nil}
use real_time_cyclic.Prelude.{
  ℕ, zero, suc, ◌+◌, ◌<◌, ◌≡◌, refl, ◌≢◌, List, [], ◌∷◌, ◌++◌, length, get_or, set, get_or-append,
  set-append, replicate, arith, ap, ◌∙◌,
}
use real_time_cyclic.Slave.Name.{erase_number}

-- The bytes of the first list, in reverse, before the second.
unfoldable pub rev_append : List ℕ → List ℕ → List ℕ
rev_append [] rest = rest
rev_append (x ∷ xs) rest = rev_append xs (x ∷ rest)

rev_append-rev_append : (a b c : List ℕ) → rev_append (rev_append a b) c ≡ rev_append b (a ++ c)
unfolding rev_append
rev_append-rev_append [] b c = refl
rev_append-rev_append (x ∷ a) b c = rev_append-rev_append a (x ∷ b) c

get_or-rev_append :
    (a rest : List ℕ) (i k d : ℕ)
    → i ≡ length a + k
    → get_or (rev_append a rest) i d ≡ get_or rest k d
unfolding rev_append
get_or-rev_append [] rest i k d e = ap (λ j. get_or rest j d) (omega arith)
get_or-rev_append (x ∷ a) rest i k d e = get_or-rev_append a (x ∷ rest) i (suc k) d (omega arith)

set-rev_append :
    (a rest : List ℕ) (i k v : ℕ)
    → i ≡ length a + k
    → set (rev_append a rest) i v ≡ rev_append a (set rest k v)
unfolding rev_append
set-rev_append [] rest i k v e = ap (λ j. set rest j v) (omega arith)
set-rev_append (x ∷ a) rest i k v e = set-rev_append a (x ∷ rest) i (suc k) v (omega arith)

abbrev pub NoMark : List ℕ → Type 0
NoMark [] = Unit {0}
NoMark (c ∷ cs) = (c ≢ b'_') × NoMark cs

replicate_shift :
    (n : ℕ) (rest : List ℕ) → replicate n 0 ++ (0 ∷ rest) ≡ 0 ∷ (replicate n 0 ++ rest)
replicate_shift zero rest = refl
replicate_shift (suc n) rest = ap (◌∷◌ 0) (replicate_shift n rest)

-- The loop from the last byte of `e`, which is given in reverse.
erase_rev :
    (e base rest : List ℕ) (i : ℕ)
    → 0 < length base
    → i ≡ length base + length e
    → NoMark e
    → erase_number i (base ++ b'_' ∷ rev_append e rest) (base ++ b'_' ∷ rev_append e rest)
      ≡ base ++ (0 ∷ (replicate (length e) 0 ++ rest))
unfolding erase_number rev_append
erase_rev e base rest zero h at_end clean = absurd (omega arith)
erase_rev [] base rest (suc i) h at_end clean = rw (
  get_or-append base (b'_' ∷ rest) (suc i) 0 0 (omega arith),
  set-append base (b'_' ∷ rest) (suc i) 0 0 (omega arith),
)
erase_rev (x ∷ e) base rest (suc i) h at_end clean =
    let byte : get_or (base ++ b'_' ∷ rev_append e (x ∷ rest)) (suc i) 0 ≡ x =
      get_or-append base (b'_' ∷ rev_append e (x ∷ rest)) (suc i) (suc (length e)) 0 (omega arith)
      ∙ get_or-rev_append e (x ∷ rest) (length e) 0 0 (omega arith) in
    let erased : set (base ++ b'_' ∷ rev_append e (x ∷ rest)) (suc i) 0
        ≡ base ++ b'_' ∷ rev_append e (0 ∷ rest) =
      set-append base (b'_' ∷ rev_append e (x ∷ rest)) (suc i) (suc (length e)) 0 (omega arith)
      ∙ ap (λ t. base ++ b'_' ∷ t) (set-rev_append e (x ∷ rest) (length e) 0 0 (omega arith)) in
    ground (
      arith,
      byte,
      erased,
      erase_rev e base (0 ∷ rest) i h (omega arith) clean.1,
      replicate_shift (length e) rest,
    )

rev_append-NoMark : (e rest : List ℕ) → NoMark e → NoMark rest → NoMark (rev_append e rest)
unfolding rev_append
rev_append-NoMark [] rest h k = k
rev_append-NoMark (x ∷ e) rest h k = rev_append-NoMark e (x ∷ rest) h.1 (h.0, k)

length-rev_append : (e rest : List ℕ) → length (rev_append e rest) ≡ length e + length rest
unfolding rev_append
length-rev_append [] rest = omega arith
length-rev_append (x ∷ e) rest = omega (arith, length-rev_append e (x ∷ rest))

-- From the last byte of the buffer the loop erases what stands behind the last mark, and the mark.
pub erase_number_lem :
    (base e : List ℕ) (i : ℕ)
    → 0 < length base
    → i ≡ length base + length e
    → NoMark e
    → erase_number i (base ++ b'_' ∷ e) (base ++ b'_' ∷ e) ≡ base ++ 0 ∷ replicate (length e) 0
unfolding rev_append
erase_number_lem base e i h at_end clean =
    let back : rev_append (rev_append e []) [] ≡ e = rev_append-rev_append e [] [] ∙ append-nil e in
    let rev_length : length (rev_append e []) ≡ length e = length-rev_append e [] ∙ omega arith in
    ground (
      arith,
      back,
      rev_length,
      erase_rev (rev_append e []) base [] i h (omega arith) (rev_append-NoMark e [] clean tt),
      append-nil {A = ℕ} (replicate (length e) 0),
    )
