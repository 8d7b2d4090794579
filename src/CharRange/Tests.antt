-- ===== src/CharRange/Tests.antt =====
-- Runs of the range functions of libunicode.c, and their theorems at concrete inputs.
use substrata_swift.Prelude.{◌≤◌}
use substrata_swift.Prelude.{
  ℕ, ◌-◌, ◌^◌, ◌<◌, ◌≡◌, refl, arith, Bool, true, false, not, List, [], ◌∷◌,
}
use substrata_swift.CharRange.{
  CharRange, odd, CharRangeOp, is_in, cr_realloc, cr_add_point, toggle, op_loop, cr_op,
}
use substrata_swift.CharRange.{
  compress_from, cr_init, cr_compress, cr_union1, cr_union_interval, cr_invert,
}
use substrata_swift.CharRange.Member.{inside, Strict}
use substrata_swift.CharRange.Sets.{combined, IsRange, cr_op_lem, cr_invert_lem}
use substrata_swift.CharRange.Refused.{cr_op_refused}

abbrev always : ℕ → Bool
always n = true

abbrev never : ℕ → Bool
never n = false

-- Digits, and "0" to "4" with "9" to "z".
abbrev digits : List ℕ
digits = 48 ∷ 58 ∷ []

abbrev others : List ℕ
others = 48 ∷ 53 ∷ 57 ∷ 123 ∷ []

digits-IsRange : IsRange digits
unfolding odd
digits-IsRange = record { ascending = omega arith; even = refl }

others-IsRange : IsRange others
unfolding odd
others-IsRange = record { ascending = omega arith; even = refl }

inter_done : (cr_op always cr_init digits others CharRangeOp.inter).0 ≡ true
unfolding cr_op op_loop toggle cr_add_point cr_realloc is_in odd cr_init
inter_done = refl

inter_points :
    (cr_op always cr_init digits others CharRangeOp.inter).1.points ≡ 48 ∷ 53 ∷ 57 ∷ 58 ∷ []
unfolding cr_op op_loop toggle cr_add_point cr_realloc is_in odd cr_init cr_compress compress_from
inter_points = refl

cr_op_example :
    Strict 0 (cr_op always cr_init digits others CharRangeOp.inter).1.points
    × ((x : ℕ)
        → inside x (cr_op always cr_init digits others CharRangeOp.inter).1.points
          ≡ combined CharRangeOp.inter (inside x digits) (inside x others))
cr_op_example =
    cr_op_lem always digits others CharRangeOp.inter digits-IsRange others-IsRange inter_done

abbrev digit_range : CharRange
digit_range = record { points = digits; size = 2 }

interval_done : (cr_union_interval always digit_range 65 70).0 ≡ true
unfolding cr_union_interval cr_union1 cr_op op_loop toggle cr_add_point cr_realloc is_in odd cr_init
interval_done = refl

invert_done : (cr_invert always digit_range).0 ≡ true
unfolding cr_invert cr_realloc
invert_done = refl

cr_invert_example :
    Strict 0 (cr_invert always digit_range).1.points
    × ((x : ℕ)
        → x < 2 ^ 32 - 1
        → inside x (cr_invert always digit_range).1.points ≡ not (inside x digits))
cr_invert_example = cr_invert_lem always digit_range digits-IsRange (omega arith) invert_done

refused_run : (cr_op never cr_init digits others CharRangeOp.inter).0 ≡ false
unfolding cr_op op_loop toggle cr_add_point cr_realloc is_in odd cr_init
refused_run = refl

cr_op_refused_example : (n : ℕ) × (never n ≡ false) × (4 ≤ n) × (n ≤ 36)
unfolding cr_init
cr_op_refused_example = cr_op_refused never cr_init digits others CharRangeOp.inter refused_run
