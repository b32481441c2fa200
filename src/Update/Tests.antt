-- ===== src/Update/Tests.antt =====
-- Versions that the tests of the program name, and the theorems at some of them.
use daxiang_vpn.Prelude.{◌≤◌, ◌≡◌, ◌↔◌, refl, true, none, some, [], ◌∷◌, length, Ordering, compare}
use daxiang_vpn.Update.Text.{codes, split, split_once, value, parse_uint32}
use daxiang_vpn.Update.Version.{
  Version, parse_version, parse_item, valid_version_ids, valid_id, numeric, compare_version,
  compare_id,
}
use daxiang_vpn.Update.Version.Order.{swap, compare_version-swap, compare_version-eq_iff}
use daxiang_vpn.Update.Version.Transitive.{compare_version_trans}
use daxiang_vpn.Update.Version.Parse.{IsValid, parse_version-IsValid}
use daxiang_vpn.Update.Version.Numeric.{compare_id-value}

program : Unit {0}
unfolding parse_version parse_item valid_version_ids valid_id compare_version split split_once
    parse_uint32
program = tt

abbrev release_1_2_3 : Version
release_1_2_3 = record { major = 1; minor = 2; patch = 3; pre = [] }

abbrev rc_2 : Version
rc_2 = record release_1_2_3 { pre = codes "rc" ∷ codes "2" ∷ [] }

abbrev rc_10 : Version
rc_10 = record release_1_2_3 { pre = codes "rc" ∷ codes "10" ∷ [] }

parse_rc : parse_version (codes "1.2.3-rc.10+build.7") ≡ some rc_10
unfolding program
parse_rc = refl

leading_zero_refused : parse_version (codes "1.02.3") ≡ none
unfolding program
leading_zero_refused = refl

too_large_refused : parse_version (codes "4294967296.0.0") ≡ none
unfolding program
too_large_refused = refl

rc_2_before_rc_10 : compare_version rc_2 rc_10 ≡ Ordering.lt
unfolding program
rc_2_before_rc_10 = refl

rc_10_before_release : compare_version rc_10 release_1_2_3 ≡ Ordering.lt
unfolding program
rc_10_before_release = refl

compare_version-swap_example : compare_version rc_10 rc_2 ≡ swap (compare_version rc_2 rc_10)
compare_version-swap_example = compare_version-swap rc_2 rc_10

compare_version-eq_iff_example : (compare_version rc_2 rc_10 ≡ Ordering.eq) ↔ (rc_2 ≡ rc_10)
compare_version-eq_iff_example = compare_version-eq_iff rc_2 rc_10

compare_version_trans_example : compare_version rc_2 release_1_2_3 ≡ Ordering.lt
compare_version_trans_example =
    compare_version_trans rc_2 rc_10 release_1_2_3 rc_2_before_rc_10 rc_10_before_release

parse_version-IsValid_example :
    IsValid rc_10
    × (1 ≤ length (codes "1.2.3-rc.10+build.7"))
    × (length (codes "1.2.3-rc.10+build.7") ≤ 128)
parse_version-IsValid_example = parse_version-IsValid (codes "1.2.3-rc.10+build.7") rc_10 parse_rc

two_numeric : numeric (codes "2") ≡ true
unfolding numeric
two_numeric = refl

ten_numeric : numeric (codes "10") ≡ true
unfolding numeric
ten_numeric = refl

compare_id-value_example :
    compare_id (codes "2") (codes "10") ≡ compare (value 0 (codes "2")) (value 0 (codes "10"))
compare_id-value_example =
    compare_id-value (codes "2") (codes "10") two_numeric ten_numeric refl refl
