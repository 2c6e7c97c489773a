-- ===== src/Update/Version.antt =====
-- src/update/fallback.rs: `parse_semver` and `is_newer`.
pub mod RoundTrip
use panel_agent.Common.{
  ℕ, ◌^◌, Bool, false, ◌&&◌, ◌||◌, Option, none, some, List, [], ◌∷◌, Text, ltb, ◌==◌, get_elem?,
  map, parse_uint, splitn, drop_while,
}

-- The triple of u64.
pub record Version : Type 0 where
  pub major : ℕ
  pub minor : ℕ
  pub patch : ℕ

abbrev pub or_zero : Option ℕ → ℕ
or_zero none = 0
or_zero (some n) = n

-- `s.parse().unwrap_or(0)`
unfoldable pub part_value : Text → ℕ
unfolding parse_uint
part_value s = or_zero (parse_uint (2 ^ 64) s)

abbrev pub version_of : List ℕ → Version
version_of parts = record {
  major = or_zero (get_elem? parts 0);
  minor = or_zero (get_elem? parts 1);
  patch = or_zero (get_elem? parts 2);
}

unfoldable pub parse_semver : Text → Version
unfolding splitn drop_while part_value
parse_semver v = version_of (map part_value (splitn 2 b'.' (drop_while b'v' v)))

-- `>` on the triples: by position.
abbrev pub version_gt : Version → Version → Bool
version_gt x y =
    ltb y.major x.major
    || (x.major == y.major && (ltb y.minor x.minor || (x.minor == y.minor && ltb y.patch x.patch)))

unfoldable pub is_newer : Text → Text → Bool
unfolding parse_semver
is_newer latest current = version_gt (parse_semver latest) (parse_semver current)
