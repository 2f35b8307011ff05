-- ===== src/Services/Codec.antt =====
-- JSON texts: JSON.stringify and JSON.parse in the service, cjson.encode and cjson.decode in the
-- scripts. What one of them writes, the other reads back.
use content_publishing_servi.Common.{String, ◌≡◌, Option, some}

pub record Codec (A : Type 0) : Type 0 where
  pub encode : A → String
  pub decode : String → Option A
  pub decode-encode : (a : A) → decode (encode a) ≡ some a
