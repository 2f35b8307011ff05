-- ===== src/Services/Redis.antt =====
-- The Redis server: a parameter of the model, with the documented behaviour of the commands that the
-- program and its Lua scripts call.
use mathlib.Core.List.{Perm}
use content_publishing_servi.Common.{
  ℕ, String, ◌≡◌, Bool, true, false, List, [], ◌∷◌, ◌==ₛ◌, if◌then◌else◌, ◌||◌, refl, ◌⊎◌, inl, inr,
}

-- What is stored at a key: nothing, a text or a hash of fields with their values.
pub data Entry : Type 0 where
  missing : Entry
  string : String → Entry
  hash : List (String × String) → Entry

abbrev pub has_field : String → List (String × String) → Bool
has_field f [] = false
has_field f ((g, v) ∷ rest) = (g ==ₛ f) || has_field f rest

pub Entry-cases :
    (e : Entry)
    → (e ≡ missing)
      ⊎ (((v : String) × (e ≡ string v)) ⊎ ((rows : List (String × String)) × (e ≡ hash rows)))
Entry-cases missing = inl refl
Entry-cases (string v) = inr (inl (v, refl))
Entry-cases (hash rows) = inr (inr (rows, refl))

-- EXISTS
abbrev pub is_present : Entry → Bool
is_present missing = false
is_present (string v) = true
is_present (hash rows) = true

-- The fields that HSETNX finds: a key that is missing reads as an empty hash.
abbrev pub fields_of : Entry → List (String × String)
fields_of missing = []
fields_of (string v) = []
fields_of (hash rows) = rows

pub record Redis : Type 1 where
  pub Db : Type 0
  -- what GET, EXISTS and HGETALL answer from
  pub view : Db → String → Entry
  pub set : Db → String → String → Db
  pub setex : Db → String → ℕ → String → Db
  -- HSETNX at a key that holds no text
  pub hsetnx : Db → String → String → String → Db
  -- the fields after HSETNX; their order is the server's
  pub with_field : List (String × String) → String → String → List (String × String)
  -- RENAME of a key that exists
  pub rename : Db → String → String → Db
  pub del : Db → String → Db
  pub view-set :
      (db : Db) (k v j : String) → view (set db k v) j ≡ (if k ==ₛ j then string v else view db j)
  pub view-setex :
      (db : Db) (k : String) (seconds : ℕ) (v j : String)
      → view (setex db k seconds v) j ≡ (if k ==ₛ j then string v else view db j)
  pub view-hsetnx :
      (db : Db) (k f v j : String)
      → view (hsetnx db k f v) j
        ≡ (if k ==ₛ j then hash (with_field (fields_of (view db k)) f v) else view db j)
  pub with_field-old :
      (rows : List (String × String)) (f v : String)
      → has_field f rows ≡ true
      → with_field rows f v ≡ rows
  pub with_field-new :
      (rows : List (String × String)) (f v : String)
      → has_field f rows ≡ false
      → Perm (with_field rows f v) ((f, v) ∷ rows)
  pub view-rename :
      (db : Db) (k l j : String)
      → is_present (view db k) ≡ true
      → view (rename db k l) j
        ≡ (if l ==ₛ j then view db k else if k ==ₛ j then missing else view db j)
  pub view-del :
      (db : Db) (k j : String) → view (del db k) j ≡ (if k ==ₛ j then missing else view db j)

-- A script or a command that the server refuses.
pub data RedisError : Type 0 where
  wrong_type no_such_key bad_json nil_arithmetic : RedisError

pub data Reply (A : Type 0) : Type 0 where
  ok : A → Reply A
  raised : RedisError → Reply A
