-- ===== src/Master/Request/Errors.antt =====
-- The error buffer of a segment: a slave fills it, the master logs it and empties it.
use mathlib.Core.List.{append-nil, append_assoc}
use real_time_cyclic.Prelude.{
  ℕ, zero, suc, ◌+◌, ◌-◌, ◌<◌, ◌≤◌, ◌≡◌, refl, sym, ◌≢◌, ◌↔◌, true, List, [], ◌∷◌, ◌++◌, map,
  length, length-append, take, replicate, get_or, set, get_or-append, set-append, length-replicate,
  arith, ap, ◌∙◌, subst, ℤ, dec_lt,
}
use real_time_cyclic.Common.{
  Shmseg, SlaveError, ErrorString, empty_error, error_string, shmseg_error_size,
}
use real_time_cyclic.Os.{Ensures, Ensures-bind, done}
use real_time_cyclic.Master.Request.Parameters.{Undisturbed}
use real_time_cyclic.Master.Link.{Link, LogEntry, from_slave}
use real_time_cyclic.Master.Request.{
  consume_errors, handle_slave_request_errors, slave_request_has_errors,
}
use real_time_cyclic.Slave.Node.{set_error_seg}

-- The buffer holds these errors, the oldest first, and nothing else.
abbrev pub Holds : List SlaveError → Shmseg → Type 0
Holds es g =
    (g.shmseg_error ≡ map error_string es ++ replicate (shmseg_error_size - length es) empty_error)
    × (g.shmseg_error_current_size ≡ length es)
    × (length es ≤ shmseg_error_size)

-- What the slave's `set_error`, called for each error in turn, makes of the segment.
pub report : List SlaveError → Shmseg → Shmseg
report [] g = g
report (e ∷ es) g = report es (set_error_seg e g)

length-errors : (es : List SlaveError) → length (map error_string es) ≡ length es
length-errors [] = refl
length-errors (e ∷ es) = ap suc (length-errors es)

map-snoc :
    (e : SlaveError) (es : List SlaveError) (rest : List ErrorString)
    → map error_string (es ++ e ∷ []) ++ rest ≡ map error_string es ++ error_string e ∷ rest
map-snoc e [] rest = refl
map-snoc e (x ∷ es) rest = ap (◌∷◌ (error_string x)) (map-snoc e es rest)

take-append : (n : ℕ) (xs ys : List SlaveError) → length xs ≡ n → take n (xs ++ ys) ≡ xs
take-append zero [] ys h = refl
take-append zero (x ∷ xs) ys h = absurd (omega arith)
take-append (suc n) [] ys h = absurd (omega arith)
take-append (suc n) (x ∷ xs) ys h = ap (◌∷◌ x) (take-append n xs ys (omega arith))

take_all : (n : ℕ) (xs : List SlaveError) → length xs ≤ n → take n xs ≡ xs
take_all zero [] h = refl
take_all zero (x ∷ xs) h = absurd (omega arith)
take_all (suc n) [] h = refl
take_all (suc n) (x ∷ xs) h = ap (◌∷◌ x) (take_all n xs (omega arith))

set_error-full :
    (e : SlaveError) (es : List SlaveError) (g : Shmseg)
    → Holds es g
    → length es ≡ shmseg_error_size
    → set_error_seg e g ≡ g
unfolding set_error_seg
set_error-full e es g h full = ground arith

set_error-Holds :
    (e : SlaveError) (es : List SlaveError) (g : Shmseg)
    → Holds es g
    → length es < shmseg_error_size
    → Holds (es ++ e ∷ []) (set_error_seg e g)
unfolding set_error_seg
set_error-Holds e es g h room =
    let gap : shmseg_error_size - length es ≡ suc (shmseg_error_size - suc (length es)) =
      omega arith in
    let size : length (es ++ e ∷ []) ≡ suc (length es) = length-append es (e ∷ []) ∙ omega arith in
    let written : set (map error_string es ++ replicate (shmseg_error_size - length es) empty_error)
          (length es) (error_string e)
        ≡ map error_string (es ++ e ∷ [])
          ++ replicate (shmseg_error_size - length (es ++ e ∷ [])) empty_error =
      rw (gap, size)
        (set-append (map error_string es)
            (empty_error ∷ replicate (shmseg_error_size - suc (length es)) empty_error) (length es)
            0 (error_string e) (omega (arith, length-errors es))
          ∙ sym (map-snoc e es (replicate (shmseg_error_size - suc (length es)) empty_error))) in
    ground (arith, written, size)

-- The buffer keeps the oldest errors, as many as it has entries.
report-Holds :
    (es xs : List SlaveError) (g : Shmseg)
    → Holds xs g
    → Holds (take shmseg_error_size (xs ++ es)) (report es g)
unfolding report
report-Holds [] xs g h =
    let all : take shmseg_error_size (xs ++ []) ≡ xs =
      ap (take shmseg_error_size) (append-nil xs) ∙ take_all shmseg_error_size xs h.2 in
    rw all h
report-Holds (e ∷ es) xs g h = elim (dec_lt (length xs) shmseg_error_size) [
  | yes room ↦
      rw (append_assoc xs (e ∷ []) es) at
        (report-Holds es (xs ++ e ∷ []) (set_error_seg e g) (set_error-Holds e xs g h room))
  | no full ↦
      let size : length xs ≡ shmseg_error_size = omega arith in
      let same : set_error_seg e g ≡ g = set_error-full e xs g h size in
      let kept : take shmseg_error_size (xs ++ es) ≡ take shmseg_error_size (xs ++ e ∷ es) =
        take-append shmseg_error_size xs es size
        ∙ sym (take-append shmseg_error_size xs (e ∷ es) size) in
      subst (λ g'. Holds (take shmseg_error_size (xs ++ e ∷ es)) (report es g')) (sym same)
        (subst (λ ys. Holds ys (report es g)) kept (report-Holds es xs g h))
]

-- The log after one entry for each error.
abbrev pub logged : ℤ → List SlaveError → List LogEntry → List LogEntry
logged pid [] log = log
logged pid (e ∷ es) log = logged pid es (from_slave pid (error_string e) ∷ log)

replicate-append :
    (i r : ℕ) → replicate i empty_error ++ replicate r empty_error ≡ replicate (i + r) empty_error
replicate-append zero r = ap (λ n. replicate n empty_error) (omega arith)
replicate-append (suc i) r =
    ap (◌∷◌ empty_error) (replicate-append i r)
    ∙ ap (λ n. replicate n empty_error) {x = suc (i + r)} (omega arith)

replicate-snoc :
    (i : ℕ) (rest : List ErrorString)
    → replicate i empty_error ++ empty_error ∷ rest ≡ replicate (i + 1) empty_error ++ rest
replicate-snoc i rest =
    sym (append_assoc (replicate i empty_error) (empty_error ∷ []) rest)
    ∙ ap (λ t. t ++ rest) (replicate-append i 1)

consume_errors_lem :
    (es : List SlaveError) (i r : ℕ) (l : Link)
    → l.seg.shmseg_error
      ≡ replicate i empty_error ++ (map error_string es ++ replicate r empty_error)
    → i + length es ≤ shmseg_error_size
    → consume_errors (length es) i l
      ≡ done tt (record l {
        seg = record (l.seg) { shmseg_error = replicate (i + length es + r) empty_error };
        log = logged l.seg.pid es l.log;
      })
unfolding consume_errors
consume_errors_lem [] i r l e h =
    let flat : l.seg.shmseg_error ≡ replicate (i + 0 + r) empty_error =
      e ∙ replicate-append i r ∙ ap (λ n. replicate n empty_error) (omega arith) in
    ground arith
consume_errors_lem (x ∷ es) i r l e h =
    let rest : List ErrorString = map error_string es ++ replicate r empty_error in
    let entry : get_or l.seg.shmseg_error i empty_error ≡ error_string x =
      ap (λ t. get_or t i empty_error) e
      ∙ get_or-append (replicate i empty_error) (error_string x ∷ rest) i 0 empty_error
          (omega (arith, length-replicate i empty_error)) in
    let cleared : set l.seg.shmseg_error i empty_error ≡ replicate (i + 1) empty_error ++ rest =
      ap (λ t. set t i empty_error) e
      ∙ set-append (replicate i empty_error) (error_string x ∷ rest) i 0 empty_error
          (omega (arith, length-replicate i empty_error))
      ∙ replicate-snoc i rest in
    let same_size : replicate (i + 1 + length es + r) empty_error
        ≡ replicate (i + length (x ∷ es) + r) empty_error =
      ap (λ n. replicate n empty_error) (omega arith) in
    let l' : Link = record l {
      seg = record (l.seg) { shmseg_error = set l.seg.shmseg_error i empty_error };
      log = from_slave l.seg.pid (get_or l.seg.shmseg_error i empty_error) ∷ l.log;
    } in
    ground (arith, entry, consume_errors_lem es (i + 1) r l' cleared, same_size)

-- Nothing else of the segment changes.
report-frame :
    (es : List SlaveError) (g : Shmseg)
    → report es g ≡ record g {
      shmseg_error = (report es g).shmseg_error;
      shmseg_error_current_size = (report es g).shmseg_error_current_size;
    }
unfolding report set_error_seg
report-frame [] g = refl
report-frame (e ∷ es) g = ground (arith, report-frame es (set_error_seg e g))

handle_errors-Holds :
    (es : List SlaveError) (l : Link)
    → Holds es l.seg
    → handle_slave_request_errors l
      ≡ done tt (record l {
        seg = record (l.seg) {
          shmseg_error = replicate shmseg_error_size empty_error;
          shmseg_error_current_size = 0;
        };
        log = logged l.seg.pid es l.log;
      })
unfolding handle_slave_request_errors
handle_errors-Holds es l h =
    let size : replicate (0 + length es + (shmseg_error_size - length es)) empty_error
        ≡ replicate shmseg_error_size empty_error =
      ap (λ n. replicate n empty_error) {y = shmseg_error_size} (omega arith) in
    ground
      (arith, consume_errors_lem es 0 (shmseg_error_size - length es) l h.0 (omega arith), size)

-- Errors that a slave sets on an empty buffer are logged by the master's next handler in the order
-- in which they were set, the first SHMSEG_ERROR_SIZE of them; the segment is then as it was before.
pub errors_round_trip :
    (es : List SlaveError) (l : Link)
    → Holds [] l.seg
    → handle_slave_request_errors (record l { seg = report es l.seg })
      ≡ done tt (record l { log = logged l.seg.pid (take shmseg_error_size es) l.log })
errors_round_trip es l h =
    let handled =
      handle_errors-Holds (take shmseg_error_size es) (record l { seg = report es l.seg })
        (report-Holds es [] l.seg h) in
    ground (arith, handled, report-frame es l.seg)

-- The master looks for errors exactly when some were set.
pub has_errors_iff :
    (es : List SlaveError) (g : Shmseg)
    → Holds [] g
    → (slave_request_has_errors (report es g) ≡ true) ↔ (es ≢ [])
unfolding slave_request_has_errors
has_errors_iff [] g h = ground (arith, report-Holds [] [] g h)
has_errors_iff (e ∷ es) g h =
    let count : (report (e ∷ es) g).shmseg_error_current_size
        ≡ length (take shmseg_error_size (e ∷ es)) =
      (report-Holds (e ∷ es) [] g h).1 in
    let bound : length (take shmseg_error_size (e ∷ es)) ≤ shmseg_error_size =
      (report-Holds (e ∷ es) [] g h).2 in
    ground arith

consume_errors-Undisturbed :
    (rounds i : ℕ) (l : Link) → Ensures (Undisturbed l) (consume_errors rounds i l)
unfolding consume_errors
consume_errors-Undisturbed zero i l = ground arith
consume_errors-Undisturbed (suc rounds) i l =
    let l' : Link = record l {
      seg = record (l.seg) { shmseg_error = set l.seg.shmseg_error i empty_error };
      log = from_slave l.seg.pid (get_or l.seg.shmseg_error i empty_error) ∷ l.log;
    } in
    ground (arith, consume_errors-Undisturbed rounds (i + 1) l')

pub handle_errors-Undisturbed : (l : Link) → Ensures (Undisturbed l) (handle_slave_request_errors l)
unfolding handle_slave_request_errors
handle_errors-Undisturbed l =
    Ensures-bind (Undisturbed l) (Undisturbed l) (consume_errors l.seg.shmseg_error_current_size 0)
      _ l (λ t k. k) (λ a t k. ground arith)
      (consume_errors-Undisturbed l.seg.shmseg_error_current_size 0 l)
