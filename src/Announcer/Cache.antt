-- ===== src/Announcer/Cache.antt =====
-- The cache of schemas of apps/worker/src/batch_announcer/batch.announcer.ts.
use content_publishing_servi.Common.{ℕ, String, Option, some, false, ◌==ₛ◌, ◌≡◌}
use content_publishing_servi.Services.Redis.{Redis, string}
use content_publishing_servi.Announcer.{FileTools, schema_cache_key}

module _ (tools : FileTools) (redis : Redis) where
  -- The text is cached under the schema.
  abbrev Caches : redis.Db → ℕ → String → Type 0
  Caches db schema_id text =
      (redis.view db (schema_cache_key schema_id) ≡ string text) × ((text ==ₛ "") ≡ false)

  -- A payload that the chain gives has a text that is not empty.
  abbrev pub IsFull : Option String → Type 0
  IsFull payload = (text : String) → payload ≡ some text → (text ==ₛ "") ≡ false
