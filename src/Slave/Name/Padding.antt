-- ===== src/Slave/Name/Padding.antt =====
-- Name buffers: a text followed by zeros only.
use real_time_cyclic.Prelude.{
  ℕ, zero, suc, ◌-◌, ◌<◌, ◌≤◌, ◌≡◌, List, [], ◌∷◌, ◌++◌, length, length-append, replicate,
  length-replicate, drop, some, arith, ap, ◌∙◌,
}
use real_time_cyclic.Common.{slave_name_size}
use real_time_cyclic.Common.Text.{c_string, strcpy}
use real_time_cyclic.Common.Text.Laws.{IsText, c_string-append}

unfoldable pub padded : List ℕ → List ℕ
padded t = t ++ replicate (slave_name_size - length t) 0

pub length-padded : (t : List ℕ) → length t < slave_name_size → length (padded t) ≡ slave_name_size
unfolding padded
length-padded t h = omega (
  arith,
  length-append t (replicate (slave_name_size - length t) 0),
  length-replicate {A = ℕ} (slave_name_size - length t) 0,
)

-- A padded buffer seen as the text, its NUL and zeros.
pub padded_split :
    (t : List ℕ)
    → length t < slave_name_size
    → padded t ≡ t ++ 0 ∷ replicate (slave_name_size - 1 - length t) 0
unfolding padded
padded_split t h =
    let e : slave_name_size - length t ≡ suc (slave_name_size - 1 - length t) = omega arith in rw e

pub c_string-padded : (t : List ℕ) → IsText t → length t < slave_name_size → c_string (padded t) ≡ t
c_string-padded t h lt =
    rw (padded_split t lt) (c_string-append t (replicate (slave_name_size - 1 - length t) 0) h)

drop-replicate : (n m : ℕ) → drop n (replicate m 0) ≡ replicate {A = ℕ} (m - n) 0
drop-replicate zero m = ap (λ k. replicate k 0) (omega arith)
drop-replicate (suc n) zero = let e : zero ≡ zero - suc n = omega arith in rw (← e)
drop-replicate (suc n) (suc m) = drop-replicate n m ∙ ap (λ k. replicate k 0) (omega arith)

drop-append : (s zs : List ℕ) (n : ℕ) → length s ≤ n → drop n (s ++ zs) ≡ drop (n - length s) zs
drop-append [] zs n h = ap (λ k. drop k zs) (omega arith)
drop-append (c ∷ s) zs zero h = absurd (omega arith)
drop-append (c ∷ s) zs (suc n) h =
    drop-append s zs n (omega arith) ∙ ap (λ k. drop k zs) (omega arith)

-- A copy over a shorter text leaves zeros behind it.
pub strcpy-padded :
    (s t : List ℕ)
    → length s ≤ length t
    → length t < slave_name_size
    → strcpy (padded s) t ≡ some (padded t)
unfolding strcpy
strcpy-padded s t h lt =
    let tail : drop (suc (length t)) (padded s) ≡ replicate (slave_name_size - 1 - length t) 0 =
      unfold padded in
      (drop-append s (replicate (slave_name_size - length s) 0) (suc (length t)) (omega arith)
        ∙ drop-replicate (suc (length t) - length s) (slave_name_size - length s)
        ∙ ap (λ k. replicate k 0) (omega arith)) in
    ground (arith, tail, length-padded s, padded_split t lt)
