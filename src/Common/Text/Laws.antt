-- ===== src/Common/Text/Laws.antt =====
-- Laws of the string functions, for strings without a NUL inside.
use real_time_cyclic.Prelude.{
  ℕ, zero, suc, ◌-◌, ◌<◌, ◌≡◌, refl, true, List, [], ◌∷◌, ◌++◌, length, length-append, drop, none,
  some, arith, ◌↔◌,
}
use real_time_cyclic.Common.Text.{c_string, strcpy, streq}

-- No byte is NUL.
abbrev pub IsText : List ℕ → Type 0
IsText [] = Unit {0}
IsText (c ∷ cs) = (0 < c) × IsText cs

pub IsText-append : (s t : List ℕ) → IsText s → IsText t → IsText (s ++ t)
IsText-append [] t h k = k
IsText-append (c ∷ s) t h k = (h.0, IsText-append s t h.1 k)

-- What a buffer holds is a text.
pub c_string-IsText : (buf : List ℕ) → IsText (c_string buf)
unfolding c_string
c_string-IsText [] = tt
c_string-IsText (c ∷ cs) = ground (arith, c_string-IsText cs)

pub c_string-append : (s rest : List ℕ) → IsText s → c_string (s ++ 0 ∷ rest) ≡ s
unfolding c_string
c_string-append [] rest h = refl
c_string-append (c ∷ s) rest h = ground (arith, c_string-append s rest h.1)

pub length-c_string : (buf : List ℕ) → length (c_string buf) < suc (length buf)
unfolding c_string
length-c_string [] = omega arith
length-c_string (c ∷ cs) = ground (arith, length-c_string cs)

pub length-drop : (n : ℕ) (xs : List ℕ) → length (drop n xs) ≡ length xs - n
length-drop zero xs = omega arith
length-drop (suc n) [] = omega arith
length-drop (suc n) (x ∷ xs) = omega (arith, length-drop n xs)

-- A copy that fits leaves the text in a buffer of the same size.
pub strcpy_fits :
    (buf s : List ℕ)
    → IsText s
    → length s < length buf
    → (buf' : List ℕ) × (strcpy buf s ≡ some buf')
      × (c_string buf' ≡ s)
      × (length buf' ≡ length buf)
unfolding strcpy
strcpy_fits buf s h fits = (
  s ++ 0 ∷ drop (suc (length s)) buf,
  ground arith,
  c_string-append s (drop (suc (length s)) buf) h,
  omega (arith, length-append s (0 ∷ drop (suc (length s)) buf), length-drop (suc (length s)) buf),
)

-- A copy that does not fit is a write past the end.
pub strcpy_overflow : (buf s : List ℕ) → ¬ (length s < length buf) → strcpy buf s ≡ none
unfolding strcpy
strcpy_overflow buf s h = ground arith

pub streq_iff : (s t : List ℕ) → (streq s t ≡ true) ↔ (s ≡ t)
unfolding streq
streq_iff [] [] = (λ _. refl, λ _. refl)
streq_iff [] (d ∷ t) = ground arith
streq_iff (c ∷ s) [] = ground arith
streq_iff (c ∷ s) (d ∷ t) = ground (arith, streq_iff s t)
