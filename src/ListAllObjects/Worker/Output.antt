-- ===== src/ListAllObjects/Worker/Output.antt =====
-- What the lines of the output are.
use s3cpp.Prelude.{
  ◌≡◌, refl, Option, none, some, List, [], ◌∷◌, ◌++◌, append_assoc, All, Text, Lacks,
}
use s3cpp.S3.Types.{Object}
use s3cpp.S3.Query.Reader.{split, split-append, split-Lacks}
use s3cpp.ListAllObjects.Misc.{plain}
use s3cpp.ListAllObjects.Worker.{line, plain_line, buffer}

-- The keys of the objects that have one, in order.
abbrev key_line : Option Text → List Text
key_line none = []
key_line (some key) = key ∷ []

pub keys : List Object → List Text
keys [] = []
keys (o ∷ os) = key_line o.key ++ keys os

-- A key, if there is one, that holds no line break.
abbrev IsOneLine : Option Text → Type 0
IsOneLine none = Unit
IsOneLine (some key) = Lacks b'\n' key

abbrev pub HasOneLineKey : Object → Type 0
HasOneLineKey o = IsOneLine o.key

split-line :
    (t rest : Text) → Lacks b'\n' t → split b'\n' ((t ++ b'\n' ∷ []) ++ rest) ≡ t ∷ split b'\n' rest
split-line t rest h =
    rw (append_assoc t (b'\n' ∷ []) rest, split-append b'\n' t rest, split-Lacks b'\n' t h)

split-plain_line :
    (key : Option Text) (rest : Text)
    → IsOneLine key
    → split b'\n' (plain_line key ++ rest) ≡ key_line key ++ split b'\n' rest
unfolding plain_line
split-plain_line none rest h = refl
split-plain_line (some key) rest h = split-line key rest h

module _ (serialize : Object → Text) where
  -- The lines of a page's plain output are the keys of its objects that have one, in the page's
  -- order, if no key holds a line break; behind the last stands a line break.
  pub split-buffer_plain :
      (os : List Object)
      → All HasOneLineKey os
      → split b'\n' (buffer serialize plain os) ≡ keys os ++ [] ∷ []
  unfolding buffer line keys split
  split-buffer_plain [] h = refl
  split-buffer_plain (o ∷ os) (k, h) = rw (
    split-plain_line o.key (buffer serialize plain os) k,
    split-buffer_plain os h,
    append_assoc (key_line o.key) (keys os) ([] ∷ []),
  )
