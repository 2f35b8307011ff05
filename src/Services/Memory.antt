-- ===== src/Services/Memory.antt =====
-- A Redis server and a scheduler registry as plain functions: the assumptions can be met, and the
-- tests run on them.
use mathlib.Core.List.{Perm}
use mathlib.Core.List.Perm
use content_publishing_servi.Common.{
  String, ◌≡◌, refl, true, false, Option, none, some, List, ◌∷◌, ◌==ₛ◌, if◌then◌else◌,
}
use content_publishing_servi.Services.Redis.{
  Entry, missing, string, hash, has_field, fields_of, Redis,
}
use content_publishing_servi.Services.Scheduler.{Scheduler}

abbrev pub Store : Type 0
Store = String → Entry

abbrev pub put : Store → String → Entry → Store
put db k e j = if k ==ₛ j then e else db j

abbrev pub add_field : List (String × String) → String → String → List (String × String)
add_field rows f v = if has_field f rows then rows else (f, v) ∷ rows

pub add_field-old :
    (rows : List (String × String)) (f v : String)
    → has_field f rows ≡ true
    → add_field rows f v ≡ rows
add_field-old rows f v h = rw h

pub add_field-new :
    (rows : List (String × String)) (f v : String)
    → has_field f rows ≡ false
    → Perm (add_field rows f v) ((f, v) ∷ rows)
add_field-new rows f v h = rw h (Perm.refl ((f, v) ∷ rows))

abbrev pub empty_store : Store
empty_store k = missing

abbrev pub memory : Redis
memory = record {
  Db = Store;
  view = λ db k. db k;
  set = λ db k v. put db k (string v);
  setex = λ db k seconds v. put db k (string v);
  hsetnx = λ db k f v. put db k (hash (add_field (fields_of (db k)) f v));
  with_field = add_field;
  rename = λ db k l. put (put db k missing) l (db k);
  del = λ db k. put db k missing;
  view-set = λ db k v j. refl;
  view-setex = λ db k seconds v j. refl;
  view-hsetnx = λ db k f v j. refl;
  with_field-old = add_field-old;
  with_field-new = add_field-new;
  view-rename = λ db k l j h. refl;
  view-del = λ db k j. refl;
}

abbrev pub no_timers : {Timeout : Type 0} → String → Option Timeout
no_timers n = none

abbrev pub memory_scheduler : (Timeout : Type 0) → Scheduler Timeout
memory_scheduler Timeout = record {
  Timers = String → Option Timeout;
  find = λ ts n. ts n;
  delete_timeout = λ ts n m. if n ==ₛ m then none else ts m;
  add_timeout = λ ts n t m. if n ==ₛ m then some t else ts m;
  find-delete_timeout = λ ts n m. refl;
  find-add_timeout = λ ts n t m h. refl;
}
