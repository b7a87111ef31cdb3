-- ===== src/Iam/Urlencode/Required.antt =====
-- `urlencode_required` looks for a byte that needs no escape, where it should look for one that
-- does: `grammar::find_if` stops at the first member of the set.
use s3cpp.Prelude.{
  ◌≡◌, inl, inr, Bool, false, not, ◌||◌, [], ◌∷◌, arith, Text, contains, length, ◌==◌, Bool-cases,
}
use s3cpp.Iam.BoostUrl.{BoostUrl, IsBoostUrl}
use s3cpp.Iam.Urlencode.{path_charset, urlencode_path_required}

abbrev pub any_member : Text → Text → Bool
any_member cs [] = false
any_member cs (c ∷ s) = contains cs c || any_member cs s

module _ (u : BoostUrl) (b : IsBoostUrl u) where
  find_if-any : (cs s : Text) → not (u.find_if s cs == length s) ≡ any_member cs s
  find_if-any cs [] = rw (b.find_if-nil cs)
  find_if-any cs (c ∷ s) = elim (Bool-cases (contains cs c)) [
    | inl y ↦ rw (b.find_if-member c s cs y, y) (ground arith)
    | inr n ↦ rw (b.find_if-other c s cs n, n) (ground (arith, find_if-any cs s))
  ]

  -- The test holds exactly of the texts with a byte that is kept as it is.
  pub urlencode_path_required_lem :
      (s : Text) → urlencode_path_required u s ≡ any_member path_charset s
  unfolding urlencode_path_required
  urlencode_path_required_lem s = find_if-any path_charset s
