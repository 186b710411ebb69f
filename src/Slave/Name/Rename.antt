-- ===== src/Slave/Name/Rename.antt =====
-- What the requests to change a name do to it.
use mathlib.Core.List.{append_assoc}
use real_time_cyclic.Prelude.{
  ℕ, zero, suc, ◌+◌, ◌-◌, ◌%◌, ◌^◌, ◌<◌, ◌≤◌, ◌≡◌, refl, sym, List, [], ◌∷◌, ◌++◌, length,
  length-append, replicate, length-replicate, some, arith, ap, ◌∙◌,
}
use real_time_cyclic.Common.{slave_name_size, ack}
use real_time_cyclic.Common.Text.{strcpy, print_unsigned}
use real_time_cyclic.Common.Text.Laws.{IsText, IsText-append}
use real_time_cyclic.Common.Text.Digits.{
  IsDigits, print_unsigned-IsDigits, IsDigits-IsText, length-print_unsigned,
  print_unsigned-injective,
}
use real_time_cyclic.Os.{Os, Returns, done}
use real_time_cyclic.Slave.Node.{Node, send_master_ack_response}
use real_time_cyclic.Slave.Name.{
  erase_number, numbered, erase_names, number_name, handle_change_name_slave_request,
}
use real_time_cyclic.Slave.Name.Padding.{padded, padded_split, c_string-padded, strcpy-padded}
use real_time_cyclic.Slave.Name.Erase.{NoMark, erase_number_lem}

-- The name with which a slave was started, after `k` changes.
unfoldable pub name_after : List ℕ → ℕ → List ℕ
unfolding numbered
name_after base zero = base
name_after base (suc k) = numbered base (suc k)

-- A name from which every number can be made within the buffer.
abbrev pub Roomy : List ℕ → Type 0
Roomy base = (0 < length base) × (length base + 11 < slave_name_size) × IsText base

pub numbered-IsText :
    (base : List ℕ) (k : ℕ)
    → Roomy base
    → IsText (numbered base k) × (length (numbered base k) < slave_name_size)
unfolding numbered
numbered-IsText base k h = (
  IsText-append base (b'_' ∷ print_unsigned k) h.2
      (omega arith, IsDigits-IsText (print_unsigned k) (print_unsigned-IsDigits k)),
  omega (arith, length-append base (b'_' ∷ print_unsigned k), length-print_unsigned k),
)

IsDigits-NoMark : (s : List ℕ) → IsDigits s → NoMark s
IsDigits-NoMark [] h = tt
IsDigits-NoMark (c ∷ s) h = (λ e. omega arith, IsDigits-NoMark s h.2)

NoMark-append : (s t : List ℕ) → NoMark s → NoMark t → NoMark (s ++ t)
NoMark-append [] t h k = k
NoMark-append (c ∷ s) t h k = (h.0, NoMark-append s t h.1 k)

zeros-NoMark : (n : ℕ) → NoMark (replicate n 0)
zeros-NoMark zero = tt
zeros-NoMark (suc n) = (λ e. omega arith, zeros-NoMark n)

-- The loop takes a numbered name back to the name.
pub erase-numbered :
    (base : List ℕ) (k : ℕ)
    → Roomy base
    → erase_number 127 (padded (numbered base k)) (padded (numbered base k)) ≡ padded base
erase-numbered base k h =
    let ds : List ℕ = print_unsigned k in
    let gap : ℕ = slave_name_size - length (numbered base k) in
    let shape : padded (numbered base k) ≡ base ++ b'_' ∷ (ds ++ replicate gap 0) =
      unfold padded numbered in append_assoc base (b'_' ∷ ds) (replicate gap 0) in
    let size : length ds + gap ≡ 127 - length base =
      unfold numbered in omega (arith, length-append base (b'_' ∷ ds), length-print_unsigned k) in
    let tail_size : length (ds ++ replicate gap 0) ≡ 127 - length base =
      length-append ds (replicate gap 0)
      ∙ ap (λ m. length ds + m) (length-replicate gap 0)
      ∙ size in
    let clean : NoMark (ds ++ replicate gap 0) =
      NoMark-append ds (replicate gap 0) (IsDigits-NoMark ds (print_unsigned-IsDigits k))
        (zeros-NoMark gap) in
    rw shape (
      erase_number_lem base (ds ++ replicate gap 0) 127 h.0 (omega arith) clean
      ∙ ap (λ m. base ++ 0 ∷ replicate m 0) tail_size
      ∙ sym (padded_split base (omega arith)))

-- The two copies of the name, and the number of changes so far.
pub record Named (base : List ℕ) (k : ℕ) (n : Node) : Type 0 where
  pub index : n.self.change_name_idx ≡ k
  pub own : n.self.name ≡ padded (name_after base k)
  pub shared : n.seg.name ≡ padded (name_after base k)

-- The node with both copies of the name back at the base.
restored : List ℕ → Node → Node
restored base n = record n {
  self = record (n.self) { name = padded base };
  seg = record (n.seg) { name = padded base };
}

erase_names-restored :
    (base : List ℕ) (k : ℕ) (n : Node)
    → Roomy base
    → Named base (suc k) n
    → erase_names n ≡ done tt (restored base n)
unfolding erase_names restored name_after
erase_names-restored base k n h v = rw (v.own, v.shared, erase-numbered base (suc k) h)

-- The node after a change from the base to the name with number `k`.
renamed : List ℕ → ℕ → Node → Node
renamed base k n = record n {
  self = record (n.self) { name = padded (numbered base k); change_name_idx = k };
  seg = record (n.seg) { name = padded (numbered base k) };
}

number_name-renamed :
    (os : Os) (base : List ℕ) (k : ℕ) (n : Node)
    → Roomy base
    → k + 1 < 2 ^ 32
    → n.self.change_name_idx ≡ k
    → number_name os (restored base n) ≡ send_master_ack_response os (renamed base (k + 1) n)
unfolding number_name restored renamed
number_name-renamed os base k n h lt e =
    let text : IsText (numbered base (k + 1)) × (length (numbered base (k + 1)) < slave_name_size) =
      numbered-IsText base (k + 1) h in
    let grows : length base ≤ length (numbered base (k + 1)) =
      unfold numbered in omega (arith, length-append base (b'_' ∷ print_unsigned (k + 1))) in
    let next : (n.self.change_name_idx + 1) % 2 ^ 32 ≡ k + 1 = omega arith in
    let write : strcpy (padded base) (numbered base (k + 1))
        ≡ some (padded (numbered base (k + 1))) =
      strcpy-padded base (numbered base (k + 1)) grows text.1 in
    ground
      (arith, next, c_string-padded base h.2, write, c_string-padded (numbered base (k + 1)), text)

handle_change_name_reduces :
    (os : Os) (base : List ℕ) (k : ℕ) (n : Node)
    → Roomy base
    → k + 1 < 2 ^ 32
    → Named base k n
    → handle_change_name_slave_request os n ≡ number_name os (restored base n)
unfolding handle_change_name_slave_request
handle_change_name_reduces os base zero n h lt v =
    let same : restored base n ≡ n = unfold restored name_after in ground arith in
    simp (v.index, same)
handle_change_name_reduces os base (suc k) n h lt v =
    let erased : erase_names n ≡ done tt (restored base n) = erase_names-restored base k n h v in
    let index : (restored base n).self.change_name_idx ≡ suc k = unfold restored in v.index in
    ground (arith, erased, index)

-- A request to change the name of a slave whose name leaves room for a number is acknowledged; both
-- copies of the name are then the first name with the next number, as long as that is below 2 ^ 32.
pub handle_change_name-Named :
    (os : Os) (base : List ℕ) (k : ℕ) (n : Node)
    → Roomy base
    → k + 1 < 2 ^ 32
    → Named base k n
    → Returns
        (λ _ n'. Named base (suc k) n' × (n'.seg.res_s_to_m ≡ ack))
        (handle_change_name_slave_request os n)
unfolding send_master_ack_response renamed name_after
handle_change_name-Named os base k n h lt v =
    let next : k + 1 ≡ suc k = omega arith in
    rw
      (
        handle_change_name_reduces os base k n h lt v,
        number_name-renamed os base k n h lt v.index,
        next,
      )
      (ground arith)

append_cancel : (s t u : List ℕ) → s ++ t ≡ s ++ u → t ≡ u
append_cancel [] t u e = e
append_cancel (c ∷ s) t u e = append_cancel s t u (ground arith)

-- No two numbers of changes give the same name.
pub name_after-injective :
    (base : List ℕ) (i j : ℕ)
    → i < 2 ^ 32
    → j < 2 ^ 32
    → name_after base i ≡ name_after base j
    → i ≡ j
unfolding name_after numbered
name_after-injective base zero zero h k e = refl
name_after-injective base zero (suc j) h k e =
    absurd (omega (arith, ap length e, length-append base (b'_' ∷ print_unsigned (suc j))))
name_after-injective base (suc i) zero h k e =
    absurd (omega (arith, ap length e, length-append base (b'_' ∷ print_unsigned (suc i))))
name_after-injective base (suc i) (suc j) h k e = print_unsigned-injective (suc i) (suc j) h k (
    ground
      (arith, append_cancel base (b'_' ∷ print_unsigned (suc i)) (b'_' ∷ print_unsigned (suc j)) e))
