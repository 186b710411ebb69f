-- ===== src/System/Transfer.antt =====
-- The parameters of one round: src/slave.c writes them, src/master.c takes them.
use real_time_cyclic.Prelude.{
  ℕ, ◌+◌, ◌%◌, ◌<◌, ◌≡◌, refl, ◌∙◌, ap, Bool, true, List, [], ◌∷◌, ◌++◌, length, replicate, pos,
  some, arith, if◌then◌else◌,
}
use real_time_cyclic.Common.{Shmseg, string_size, signal_master_parameter}
use real_time_cyclic.Common.Params.{
  has_bit, string_parameter_bit, int_parameter_bit, bool_parameter_bit,
}
use real_time_cyclic.Common.Text.{c_string, strcpy}
use real_time_cyclic.Common.Text.Laws.{IsText, strcpy_fits, c_string-append}
use real_time_cyclic.Os.{Os, Returns, done}
use real_time_cyclic.Master.Link.{Link}
use real_time_cyclic.Master.Send.{send_slave_ack_response}
use real_time_cyclic.Master.Request.{
  handle_slave_request, dispatch_slave_request, take_parameters, take_string_parameter,
  take_int_parameter, take_bool_parameter,
}
use real_time_cyclic.Slave.Node.{Node}
use real_time_cyclic.Slave.Cycle.{fill_parameters, fill_string}

-- The text that one random number gives.
abbrev pub letters : ℕ → List ℕ
letters rand_value =
    let chr_rand = b'A' + rand_value % 26 in chr_rand ∷ (chr_rand + 1) ∷ (chr_rand + 2) ∷ []

-- A parameter that was requested has reached the master.
abbrev pub Delivered : ℕ → Shmseg → Shmseg → Type 0
Delivered rand_value g g' =
    (has_bit g.requested_parameters string_parameter_bit ≡ true
      → c_string g'.last_known_string_value ≡ letters rand_value)
    × (has_bit g.requested_parameters int_parameter_bit ≡ true
        → g'.last_known_int_value ≡ pos rand_value)
    × (has_bit g.requested_parameters bool_parameter_bit ≡ true
        → g'.last_known_bool_value ≡ rand_value % 2)

-- The slave's text in a buffer of zeros.
fill_zeros :
    (rand_value : ℕ)
    → fill_string rand_value (replicate string_size 0) ≡ letters rand_value ++ 0 ∷ replicate 1020 0
unfolding fill_string
fill_zeros rand_value = refl

letters-IsText : (rand_value : ℕ) → IsText (letters rand_value)
letters-IsText rand_value = (omega arith, (omega arith, (omega arith, tt)))

letters-c_string :
    (rand_value : ℕ) → c_string (letters rand_value ++ 0 ∷ replicate 1020 0) ≡ letters rand_value
letters-c_string rand_value =
    c_string-append (letters rand_value) (replicate 1020 0) (letters-IsText rand_value)

module _ (os : Os) (rand_value : ℕ) (known : List ℕ) (l : Link) (on : l.seg.is_connected ≡ true)
    (req : l.seg.req_s_to_m ≡ signal_master_parameter)
    (text : has_bit l.seg.requested_parameters string_parameter_bit ≡ true
      → l.seg.string_value ≡ letters rand_value ++ 0 ∷ replicate 1020 0)
    (copied : strcpy l.seg.last_known_string_value (letters rand_value) ≡ some known)
    (copy : c_string known ≡ letters rand_value)
    (int : has_bit l.seg.requested_parameters int_parameter_bit ≡ true
      → l.seg.int_value ≡ pos rand_value)
    (bool : has_bit l.seg.requested_parameters bool_parameter_bit ≡ true
      → l.seg.bool_value ≡ rand_value % 2) where
  takes : Returns (λ _ l'. Delivered rand_value l.seg l'.seg) (handle_slave_request os l)
  unfolding handle_slave_request dispatch_slave_request take_parameters take_string_parameter
      take_int_parameter take_bool_parameter send_slave_ack_response
  takes = ground (arith, on, req, text, copied, copy, int, bool, letters-c_string rand_value)

if_true : {A : Type 0} (b : Bool) (x y : A) → b ≡ true → (if b then x else y) ≡ x
if_true b x y e = ap (λ b. if b then x else y) e

-- The segment after the slave wrote what was requested.
abbrev filled : ℕ → Shmseg → Shmseg
filled rand_value g = record g {
  string_value =
      if has_bit g.requested_parameters string_parameter_bit
      then fill_string rand_value g.string_value
      else g.string_value;
  int_value =
      if has_bit g.requested_parameters int_parameter_bit then pos rand_value else g.int_value;
  bool_value =
      if has_bit g.requested_parameters bool_parameter_bit then rand_value % 2 else g.bool_value;
}

fill-filled :
    (rand_value : ℕ) (n : Node)
    → fill_parameters rand_value n ≡ done tt (record n { seg = filled rand_value n.seg })
unfolding fill_parameters
fill-filled rand_value n = ground arith

-- The slave's signal with the parameters, as the master finds it.
abbrev pub signalled : Link → Shmseg → Link
signalled l g = record l { seg = record g { req_s_to_m = signal_master_parameter } }

-- A connected slave fills in the parameters that were requested, in a segment whose text buffer holds
-- zeros; when the master handles the signal that follows, it returns and every requested parameter
-- that it then knows is the one that the slave made, whatever calls fail.
pub fill_parameters-Delivered :
    (os : Os) (rand_value : ℕ) (n : Node) (l : Link)
    → n.seg.is_connected ≡ true
    → n.seg.string_value ≡ replicate string_size 0
    → length n.seg.last_known_string_value ≡ string_size
    → Returns
        (λ _ n'.
          Returns
            (λ _ l'. Delivered rand_value n.seg l'.seg)
            (handle_slave_request os (signalled l n'.seg)))
        (fill_parameters rand_value n)
fill_parameters-Delivered os rand_value n l on zeros size =
    let room : length (letters rand_value) < length n.seg.last_known_string_value =
      omega (arith, size) in
    let copy =
      strcpy_fits n.seg.last_known_string_value (letters rand_value) (letters-IsText rand_value)
        room in
    rw (fill-filled rand_value n) (
      takes os rand_value copy.0 (signalled l (filled rand_value n.seg)) on refl
        (λ e.
          if_true _ (fill_string rand_value n.seg.string_value) n.seg.string_value e
          ∙ ap (fill_string rand_value) zeros
          ∙ fill_zeros rand_value)
        copy.1 copy.2 (λ e. if_true _ (pos rand_value) n.seg.int_value e)
        (λ e. if_true _ (rand_value % 2) n.seg.bool_value e))
