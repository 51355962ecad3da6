-- ===== src/Search/Cover/Normal.antt =====
-- search/substring/probe/cover.rs, `ProbeCover::from_runs`: the normal form covers the same tokens,
-- and is sorted and disjoint.
use onpair.Common.{◌<◌, ◌≡◌, false, ◌&&◌, List, [], ◌∷◌}
use onpair.Core.Types.{Token, TokenRange}
use onpair.Search.Cover.{ProbeCover}
use onpair.Search.Cover.Halving.{AreIncreasing, some_point}
use onpair.Search.Cover.Merge.{some_run, AreSeparate}

-- Every range has more than one token.
abbrev pub AreWide : List TokenRange → Type 0
AreWide [] = Unit
AreWide (r ∷ ranges) = (r.begin < r.last) × AreWide ranges

-- The normal form of a cover.
pub record IsNormal (cover : ProbeCover) : Type 0 where
  pub points_lem : AreIncreasing cover.points
  pub ranges_lem : AreSeparate cover.ranges
  pub wide : AreWide cover.ranges
  pub disjoint : (t : Token) → (some_point cover.points t && some_run cover.ranges t) ≡ false
