-- ===== src/Api/Validation.antt =====
-- What ApiService.validateAssetsAndFetchMetadata of apps/api/src/api.service.ts lets pass.
use mathlib.Core.Bool.{false≢true}
use mathlib.Core.Option.{none-ne-some, some-injective}
use content_publishing_servi.Common.{
  String, Option, none, some, List, [], ◌∷◌, Bool, true, false, not, ◌&&◌, if◌then◌else◌, Paired,
  ◌≡◌, ◌⊎◌, inl, inr, refl, sym, ◌∙◌, ap,
}
use mathlib.Core.Path.{subst}
use content_publishing_servi.Services.Redis.{Redis, Entry, missing, string, hash}
use content_publishing_servi.Services.Codec.{Codec}
use content_publishing_servi.Api.{
  AssetMetadata, CheckItem, AssetIncludedRequest, Checked, valid, bad_request, thrown, get_text,
  add_mime_type, add_error, check_answer, check_metadata, check_item, check_all, checking_list,
  validate_assets_and_fetch_metadata, is_image, get_asset_metadata_key,
}

abbrev map_of : Checked → Option (List (String × String))
map_of (valid map) = some map
map_of (bad_request errors) = none
map_of thrown = none

add_error-map_of : (error : String) (later : Checked) → map_of (add_error error later) ≡ none
unfolding add_error
add_error-map_of error (valid map) = refl
add_error-map_of error (bad_request errors) = refl
add_error-map_of error thrown = refl

add_mime_type-map_of :
    (id mime_type : String) (later : Checked) (map : List (String × String))
    → map_of (add_mime_type id mime_type later) ≡ some map
    → (rest : List (String × String)) × (map_of later ≡ some rest) × ((id, mime_type) ∷ rest ≡ map)
unfolding add_mime_type
add_mime_type-map_of id mime_type (valid rest) map e = (rest, refl, some-injective _ _ e)
add_mime_type-map_of id mime_type (bad_request errors) map e = absurd (none-ne-some map e)
add_mime_type-map_of id mime_type thrown map e = absurd (none-ne-some map e)

if-map_of :
    (b : Bool) (x y : Checked) (map : List (String × String))
    → map_of (if b then x else y) ≡ some map
    → (map_of x ≡ some map) ⊎ ((b ≡ false) × (map_of y ≡ some map))
if-map_of true x y map e = inl e
if-map_of false x y map e = inr (refl, e)

images-only : (only image : Bool) → (only && not image) ≡ false → only ≡ true → image ≡ true
images-only only true h o = refl
images-only true false h o = absurd (false≢true (sym h))
images-only false false h o = absurd (false≢true o)

module _ (metadata_json : Codec AssetMetadata) where
  -- The text holds the metadata that the entry of the map is taken from; where only images are
  -- allowed it is one's.
  abbrev pub Admits : CheckItem → String → String × String → Type 0
  Admits item text (id, mime_type) =
      (metadata : AssetMetadata) × (metadata_json.decode text ≡ some metadata)
      × (id ≡ item.reference_id)
      × (mime_type ≡ metadata.mime_type)
      × (item.only_image ≡ true → is_image metadata.mime_type ≡ true)

  check_metadata-map_of :
      (item : CheckItem) (text : String) (found : Option AssetMetadata) (later : Checked)
      (map : List (String × String))
      → metadata_json.decode text ≡ found
      → map_of (check_metadata metadata_json item found later) ≡ some map
      → (entry : String × String) × (rest : List (String × String)) × Admits item text entry
        × (map_of later ≡ some rest)
        × (entry ∷ rest ≡ map)
  unfolding check_metadata
  check_metadata-map_of item text none later map d e = absurd (none-ne-some map e)
  check_metadata-map_of item text (some metadata) later map d e =
      elim (if-map_of (item.only_image && not (is_image metadata.mime_type)) _ _ map e) [
        | inl h ↦ absurd (none-ne-some map (sym (add_error-map_of _ later) ∙ h))
        | inr (allowed, h) ↦
            let (rest, r, m) =
              add_mime_type-map_of item.reference_id metadata.mime_type later map h in
            (
              (item.reference_id, metadata.mime_type),
              rest,
              (
                metadata,
                d,
                refl,
                refl,
                images-only item.only_image (is_image metadata.mime_type) allowed,
              ),
              r,
              m,
            )
      ]

  module _ (redis : Redis) where
    -- The metadata that are stored for the item
    abbrev pub IsAdmitted : redis.Db → CheckItem → String × String → Type 0
    IsAdmitted db item entry =
        (text : String) × (redis.view db (get_asset_metadata_key item.reference_id) ≡ string text)
        × Admits item text entry

    check_answer-map_of :
        (db : redis.Db) (place : String) (item : CheckItem) (entry : Entry) (later : Checked)
        (map : List (String × String))
        → redis.view db (get_asset_metadata_key item.reference_id) ≡ entry
        → map_of (check_answer metadata_json place item (get_text entry) later) ≡ some map
        → (found : String × String) × (rest : List (String × String)) × IsAdmitted db item found
          × (map_of later ≡ some rest)
          × (found ∷ rest ≡ map)
    unfolding check_answer check_item get_text
    check_answer-map_of db place item (hash fields) later map v e = absurd (none-ne-some map e)
    check_answer-map_of db place item missing later map v e =
        absurd (none-ne-some map (sym (add_error-map_of _ later) ∙ e))
    check_answer-map_of db place item (string text) later map v e =
        let (found, rest, admitted, r, m) =
          check_metadata-map_of item text (metadata_json.decode text) later map refl e in
        (found, rest, (text, v, admitted), r, m)

    check_all-map_of :
        (db : redis.Db) (place : String) (items : List CheckItem) (map : List (String × String))
        → map_of (check_all metadata_json redis db place items) ≡ some map
        → Paired (IsAdmitted db) items map
    unfolding check_all
    check_all-map_of db place [] map e = subst (Paired (IsAdmitted db) []) (some-injective _ _ e) tt
    check_all-map_of db place (item ∷ rest) map e =
        let (found, others, admitted, r, m) =
          check_answer-map_of db place item
            (redis.view db (get_asset_metadata_key item.reference_id))
            (check_all metadata_json redis db place rest) map refl e in
        subst (Paired (IsAdmitted db) (item ∷ rest)) m
          (admitted, check_all-map_of db place rest others r)

    -- A request passes the validation only if there are metadata in the store for every asset that it
    -- names, and if every icon of a profile is an image; the mime types it passes on are, one by one,
    -- those of the metadata.
    pub validate_assets_and_fetch_metadata-Paired :
        (db : redis.Db) (content : AssetIncludedRequest) (map : List (String × String))
        → validate_assets_and_fetch_metadata metadata_json redis db content ≡ valid map
        → Paired (IsAdmitted db) (checking_list content.profile_part content.content_part) map
    unfolding validate_assets_and_fetch_metadata
    validate_assets_and_fetch_metadata-Paired db content map e =
        check_all-map_of db _ (checking_list content.profile_part content.content_part) map
          (ap map_of e)
