-- ===== src/Batching/Workers/Names.antt =====
-- The timeouts of two queues have different names.
use mathlib.Core.Option.{some-injective}
use Prim.Native.String.{count}
use text.Mathlib.TextLemmas.{append_assoc, append_cancel_left, append_inj}
use content_publishing_servi.Common.{
  String, ◌+++◌, Option, some, [], ◌∷◌, ◌≡◌, ◌≢◌, refl, ◌∙◌, sym, ap,
}
use content_publishing_servi.Queues.{
  get, AnnouncementTypeDto, broadcast, reply, reaction, update, tombstone, profile,
  announcement_to_queue_name,
}
use content_publishing_servi.Batching.{get_timeout_name}

-- The first three letters of a queue's name, and the rest of it
abbrev letters : AnnouncementTypeDto → String
letters broadcast = "bro"
letters reply = "rep"
letters reaction = "rea"
letters update = "upd"
letters tombstone = "tom"
letters profile = "pro"

abbrev ending : AnnouncementTypeDto → String
ending broadcast = "adcastQueue"
ending reply = "lyQueue"
ending reaction = "ctionQueue"
ending update = "ateQueue"
ending tombstone = "bstoneQueue"
ending profile = "fileQueue"

letters-ending : (t : AnnouncementTypeDto) → announcement_to_queue_name t ≡ letters t +++ ending t
unfolding announcement_to_queue_name
letters-ending broadcast = refl
letters-ending reply = refl
letters-ending reaction = refl
letters-ending update = refl
letters-ending tombstone = refl
letters-ending profile = refl

count-letters : (t : AnnouncementTypeDto) → count (letters t) ≡ 3
count-letters broadcast = refl
count-letters reply = refl
count-letters reaction = refl
count-letters update = refl
count-letters tombstone = refl
count-letters profile = refl

abbrev type_of_letters : String → Option AnnouncementTypeDto
type_of_letters = get (
    ("bro", broadcast)
    ∷ ("rep", reply)
    ∷ ("rea", reaction)
    ∷ ("upd", update)
    ∷ ("tom", tombstone)
    ∷ ("pro", profile)
    ∷ [])

type_of_letters-letters : (t : AnnouncementTypeDto) → type_of_letters (letters t) ≡ some t
type_of_letters-letters broadcast = refl
type_of_letters-letters reply = refl
type_of_letters-letters reaction = refl
type_of_letters-letters update = refl
type_of_letters-letters tombstone = refl
type_of_letters-letters profile = refl

queue_name_split :
    (t u : AnnouncementTypeDto) (x y : String)
    → announcement_to_queue_name t +++ x ≡ announcement_to_queue_name u +++ y
    → t ≡ u
queue_name_split t u x y e =
    let apart : letters t +++ (ending t +++ x) ≡ letters u +++ (ending u +++ y) =
      sym (append_assoc (letters t) (ending t) x)
      ∙ ap (λ s. s +++ x) (sym (letters-ending t))
      ∙ e
      ∙ ap (λ s. s +++ y) (letters-ending u)
      ∙ append_assoc (letters u) (ending u) y in
    let same = (append_inj apart (count-letters t ∙ sym (count-letters u))).0 in
    some-injective _ _
      (sym (type_of_letters-letters t) ∙ ap type_of_letters same ∙ type_of_letters-letters u)

pub timeout_name-ne :
    (t u : AnnouncementTypeDto) (b c : String)
    → t ≢ u
    → get_timeout_name (announcement_to_queue_name t) b
      ≢ get_timeout_name (announcement_to_queue_name u) c
unfolding get_timeout_name
timeout_name-ne t u b c h e =
    h (queue_name_split t u (":" +++ b) (":" +++ c) (append_cancel_left "TIMEOUT:" _ _ e))

pub queue_name-ne :
    (t u : AnnouncementTypeDto)
    → t ≢ u
    → announcement_to_queue_name t ≢ announcement_to_queue_name u
queue_name-ne t u h e = h (queue_name_split t u "" "" (ap (λ s. s +++ "") e))
