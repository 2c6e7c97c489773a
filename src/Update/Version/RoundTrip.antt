-- ===== src/Update/Version/RoundTrip.antt =====
-- Versions as the releases name them, and `parse_semver`.
use panel_agent.Common.{
  ℕ, ◌<◌, ◌^◌, ◌≡◌, ap, ◌∙◌, false, List, [], ◌∷◌, ◌++◌, Text, arith, decimal, ◌==◌, All, splitn,
  drop_while, map,
}
use panel_agent.Common.Digits.{IsDigit, decimal-IsDigit, parse_uint-decimal, splitn-part}
use panel_agent.Update.Version.{Version, version_gt, part_value, parse_semver, version_of, is_newer}

-- `format!("{}.{}.{}", …)`
unfoldable pub print : Version → Text
unfolding decimal
print x = decimal x.major ++ b'.' ∷ (decimal x.minor ++ b'.' ∷ decimal x.patch)

abbrev pub IsU64 : Version → Type 0
IsU64 x = (x.major < 2 ^ 64) × ((x.minor < 2 ^ 64) × (x.patch < 2 ^ 64))

no_dot : (t : Text) → All IsDigit t → All (λ c. (c == b'.') ≡ false) t
no_dot [] h = tt
no_dot (c ∷ t) h = (ground arith, no_dot t h.1)

decimal_no_dot : (n : ℕ) → All (λ c. (c == b'.') ≡ false) (decimal n)
decimal_no_dot n = let (c, (t, (e, (d, ds)))) = decimal-IsDigit n in rw e (no_dot (c ∷ t) (d, ds))

drop_v : (n : ℕ) (s : Text) → drop_while b'v' (decimal n ++ s) ≡ decimal n ++ s
unfolding drop_while
drop_v n s = let (c, (t, (e, (d, _)))) = decimal-IsDigit n in rw e (ground arith)

split_print :
    (x : Version)
    → splitn 2 b'.' (print x) ≡ decimal x.major ∷ decimal x.minor ∷ decimal x.patch ∷ []
unfolding print splitn
split_print x =
    splitn-part 1 b'.' (decimal x.major) _ (decimal_no_dot x.major)
    ∙ ap (λ (parts : List Text). decimal x.major ∷ parts)
        (splitn-part 0 b'.' (decimal x.minor) (decimal x.patch) (decimal_no_dot x.minor))

part_value-decimal : (n : ℕ) → n < 2 ^ 64 → part_value (decimal n) ≡ n
unfolding part_value
part_value-decimal n h = ground (arith, parse_uint-decimal (2 ^ 64) n h (omega arith))

drop_print : (x : Version) → drop_while b'v' (print x) ≡ print x
unfolding print
drop_print x = drop_v x.major _

abbrev parts_of : Text → List ℕ
parts_of t = map part_value (splitn 2 b'.' t)

read_print : (x : Version) → IsU64 x → version_of (parts_of (print x)) ≡ x
read_print x h = ground (
  arith,
  split_print x,
  part_value-decimal x.major h.0,
  part_value-decimal x.minor h.1.0,
  part_value-decimal x.patch h.1.1,
)

parse_print : (x : Version) → IsU64 x → parse_semver (print x) ≡ x
unfolding parse_semver
parse_print x h = ap (λ t. version_of (parts_of t)) (drop_print x) ∙ read_print x h

-- A version of three u64, printed, is read back as it was, with and without the `v` in front that
-- the tags of the releases have; and of two such versions the one is newer, for `is_newer`, exactly
-- when it is later in the order by major, minor and patch.
pub parse_semver-print :
    (x y : Version)
    → IsU64 x
    → IsU64 y
    → (parse_semver (print x) ≡ x)
      × (parse_semver (b'v' ∷ print x) ≡ x)
      × (is_newer (print x) (print y) ≡ version_gt x y)
unfolding parse_semver is_newer
parse_semver-print x y h k =
    let x_read : parse_semver (print x) ≡ x = parse_print x h in
    let y_read : parse_semver (print y) ≡ y = parse_print y k in
    (
      x_read,
      x_read,
      ap (λ v. version_gt v (parse_semver (print y))) x_read ∙ ap (version_gt x) y_read,
    )
