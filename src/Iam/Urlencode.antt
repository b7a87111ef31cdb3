-- ===== src/Iam/Urlencode.antt =====
-- lib/aws/iam/urlencode.cpp. The three encoders differ in the set of bytes that they keep.
pub mod Decode
pub mod Alphabet
pub mod RoundTrip
pub mod Required
use s3cpp.Prelude.{Bool, not, ◌++◌, Text, codes, length, ◌==◌}
use s3cpp.Iam.BoostUrl.{BoostUrl}

-- Left shut by default: a test of a variable byte against 66 literals is long.
unfoldable pub charset : Text
charset =
    codes "ABCDEFGHIJKLMNOPQRSTUVWXYZ"
    ++ codes "abcdefghijklmnopqrstuvwxyz"
    ++ codes "1234567890"
    ++ codes "-._~"

unfoldable pub path_charset : Text
unfolding charset
path_charset = charset ++ codes "/"

pub query_charset : Text
unfolding charset
query_charset = charset

module _ (u : BoostUrl) where
  pub urlencode : Text → Text
  urlencode input = u.encode input charset

  pub urlencode_required : Text → Bool
  urlencode_required input = not (u.find_if input charset == length input)

  unfoldable pub urlencode_path : Text → Text
  unfolding path_charset
  urlencode_path input = u.encode input path_charset

  unfoldable pub urlencode_path_required : Text → Bool
  unfolding path_charset
  urlencode_path_required input = not (u.find_if input path_charset == length input)

  pub urlencode_query : Text → Text
  urlencode_query input = u.encode input query_charset

  pub urlencode_query_required : Text → Bool
  urlencode_query_required input = not (u.find_if input query_charset == length input)
