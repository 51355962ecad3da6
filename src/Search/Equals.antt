-- ===== src/Search/Equals.antt =====
-- search/equals.rs: equality of a row with a needle, on their codes.
pub mod Rows
use onpair.Common.{Bool, true, false, not, List, [], ◌∷◌, ◌==◌, if◌then◌else◌, length}
use onpair.Core.Types.{Token}

-- The loop over `codes.iter().zip(query)`.
unfoldable pub zip_equal : List Token → List Token → Bool
zip_equal (a ∷ codes) (b ∷ query) = if not (a == b) then false else zip_equal codes query
zip_equal _ _ = true

unfoldable pub equals : List Token → List Token → Bool
unfolding zip_equal
equals codes query = if not (length codes == length query) then false else zip_equal codes query
