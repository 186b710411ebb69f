-- ===== src/Common/Text/Buffers.antt =====
-- Buffers of bytes whose last byte is NUL, so that a string in them ends inside.
use real_time_cyclic.Prelude.{
  ℕ, zero, suc, ◌+◌, ◌-◌, ◌<◌, ◌≤◌, ◌≡◌, ◌≢◌, refl, sym, ap, ◌∙◌, List, [], ◌∷◌, ◌++◌, length,
  length-append, length-set, get_or, get_or-append, get_or-set, get_or-replicate, set, drop,
  replicate, length-replicate, none, some, arith, ◌==◌, ==_iff, Bool-cases, inl, inr, subst, ltb,
  true,
}
use real_time_cyclic.Common.Text.{c_string, strcpy}
use real_time_cyclic.Common.Text.Laws.{length-drop}

-- `last` is the index of the last byte.
abbrev pub IsBuffer : ℕ → List ℕ → Type 0
IsBuffer last buf = (length buf ≡ suc last) × (get_or buf last 0 ≡ 0)

pub replicate-IsBuffer : (last : ℕ) → IsBuffer last (replicate (suc last) 0)
replicate-IsBuffer last =
    (length-replicate (suc last) 0, get_or-replicate (suc last) last 0 0 (omega arith))

pub set-IsBuffer :
    (last i v : ℕ) (buf : List ℕ) → i < last → IsBuffer last buf → IsBuffer last (set buf i v)
set-IsBuffer last i v buf lt h =
    (length-set buf i v ∙ h.0, ground (arith, get_or-set buf i last v 0))

-- A byte that is erased.
pub erase-IsBuffer :
    (last i : ℕ) (buf : List ℕ) → i ≤ last → IsBuffer last buf → IsBuffer last (set buf i 0)
erase-IsBuffer last i buf le h =
    (length-set buf i 0 ∙ h.0, ground (arith, get_or-set buf i last 0 0))

length-c_string-le :
    (buf : List ℕ) (k : ℕ) → k < length buf → get_or buf k 0 ≡ 0 → length (c_string buf) ≤ k
unfolding c_string
length-c_string-le [] k lt e = omega arith
length-c_string-le (c ∷ cs) zero lt e = ground arith
length-c_string-le (c ∷ cs) (suc k) lt e = ground (arith, length-c_string-le cs k)

-- The string that a buffer holds is shorter than the buffer.
pub length-c_string-lt :
    (last : ℕ) (buf : List ℕ) → IsBuffer last buf → length (c_string buf) < suc last
length-c_string-lt last buf h = omega (arith, length-c_string-le buf last (omega (arith, h.0)) h.1)

get_or-drop : (n i : ℕ) (xs : List ℕ) → get_or (drop n xs) i 0 ≡ get_or xs (n + i) 0
get_or-drop zero i xs = ap (λ j. get_or xs j 0) (omega arith)
get_or-drop (suc n) i [] = refl
get_or-drop (suc n) i (x ∷ xs) =
    let e : suc (n + i) ≡ suc n + i = omega arith in
    get_or-drop n i xs ∙ ap (λ j. get_or (x ∷ xs) j 0) e

-- The last byte after `s` and its NUL were written.
copied_last :
    (last : ℕ) (buf s : List ℕ)
    → length s < suc last
    → IsBuffer last buf
    → get_or (s ++ 0 ∷ drop (suc (length s)) buf) last 0 ≡ 0
copied_last last buf s lt h = elim (Bool-cases (length s == last)) [
  | inl e ↦
      get_or-append s (0 ∷ drop (suc (length s)) buf) last 0 0 (omega (arith, (==_iff _ _).0 e))
  | inr e ↦
      let rest : ℕ = last - suc (length s) in
      let here : last ≡ suc (length s) + rest = ground (arith, lt, e) in
      get_or-append s (0 ∷ drop (suc (length s)) buf) last (suc rest) 0 (omega (arith, here))
      ∙ get_or-drop (suc (length s)) rest buf
      ∙ ap (λ j. get_or buf j 0) (sym here)
      ∙ h.1
]

pub strcpy-IsBuffer :
    (last : ℕ) (buf s : List ℕ) {b : List ℕ}
    → strcpy buf s ≡ some b
    → IsBuffer last buf
    → IsBuffer last b
unfolding strcpy
strcpy-IsBuffer last buf s {b} e h = elim (Bool-cases (ltb (length s) (length buf))) [
  | inl fits ↦
      let written : s ++ 0 ∷ drop (suc (length s)) buf ≡ b = ground (arith, e, fits) in
      subst (IsBuffer last) written (
        omega (
          arith,
          h.0,
          ltb-lt (length s) (length buf) fits,
          length-append s (0 ∷ drop (suc (length s)) buf),
          length-drop (suc (length s)) buf,
        ),
        copied_last last buf s (ground (arith, fits, h)) h,
      )
  | inr over ↦ absurd (none-ne-some (ground (arith, e, over)))
]
  where
    ltb-lt : (x y : ℕ) → ltb x y ≡ true → x < y
    ltb-lt x y f = ground arith

    none-ne-some : none ≢ some b
    none-ne-some f = cc
