-- ===== src/Iam/Botan.antt =====
-- The parts of Botan that lib/aws/iam calls: SHA-256 of a text in one call, lower-case hexadecimal
-- text, and the HMAC(SHA-256) object with its state.
use s3cpp.Prelude.{◌≡◌, Text, Lacks}

pub record Botan : Type 1 where
  pub sha256 : Text → Text
  pub hex_encode : Text → Text
  pub Mac : Type 0
  pub create : Mac
  pub set_key : Mac → Text → Mac
  pub update : Mac → Text → Mac
  pub final : Mac → Text × Mac
  pub clear : Mac → Mac

-- The documented behaviour of a message authentication code: on an object that is new or cleared, a
-- key, one update and `final` give the code of that key and message.
pub record IsBotan (b : Botan) (hmac : Text → Text → Text) : Type 0 where
  pub final-create :
      (key msg : Text) → (b.final (b.update (b.set_key b.create key) msg)).0 ≡ hmac key msg
  pub final-clear :
      (m : b.Mac) (key msg : Text)
      → (b.final (b.update (b.set_key (b.clear m) key) msg)).0 ≡ hmac key msg

-- A digest's text holds no separator of the texts that it is put into.
pub record IsHex (b : Botan) : Type 0 where
  pub one_line : (t : Text) → Lacks b'\n' (b.hex_encode t)
