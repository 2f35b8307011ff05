-- ===== src/Api/Naming.antt =====
-- The assets that a request names, and what validateAssetsAndFetchMetadata of
-- apps/api/src/api.service.ts makes of them.
use mathlib.Core.List.{Memᴰ}
use mathlib.Core.List.Memᴰ
use mathlib.Core.Path.{subst}
use content_publishing_servi.Common.{
  String, Option, none, some, List, [], ◌∷◌, Bool, true, false, ◌≡◌, inl, inr, refl, sym, ◌∙◌, ap,
  or_else, Paired,
}
use content_publishing_servi.Services.Redis.{Redis}
use content_publishing_servi.Services.Codec.{Codec}
use content_publishing_servi.Requests.Content.{
  AssetReferenceDto, AssetDto, NoteActivityDto, ProfileActivityDto,
}
use content_publishing_servi.Api.{
  AssetMetadata, CheckItem, AssetIncludedRequest, check_items, asset_items, checking_list, valid,
  validate_assets_and_fetch_metadata,
}
use content_publishing_servi.Api.Validation.{IsAdmitted, validate_assets_and_fetch_metadata-Paired}

-- A request names an asset by a reference: a profile in its icons, which are images, and without a
-- profile a note in the references of its assets.
pub data Named (content : AssetIncludedRequest) : Bool → String → Type 0 where
  as_icon :
      (activity : ProfileActivityDto) (icons : List AssetReferenceDto) (r : AssetReferenceDto)
      → content.profile_part ≡ some activity
      → activity.icon ≡ some icons
      → Memᴰ r icons
      → Named content true r.reference_id
  as_asset :
      (note : NoteActivityDto) (assets : List AssetDto) (asset : AssetDto)
      (references : List AssetReferenceDto) (r : AssetReferenceDto)
      → content.profile_part ≡ none
      → content.content_part ≡ some note
      → note.assets ≡ some assets
      → Memᴰ asset assets
      → asset.references ≡ some references
      → Memᴰ r references
      → Named content false r.reference_id

abbrev item_of : Bool → String → CheckItem
item_of only_image id = record { only_image = only_image; reference_id = id }

module _ {A B : Type 0} (R : A → B → Type 0) where
  Paired-of_left :
      (xs : List A) (ys : List B) (x : A) → Paired R xs ys → Memᴰ x xs → (y : B) × Memᴰ y ys × R x y
  Paired-of_left [] ys x p m = absurd (Memᴰ.not-nil m)
  Paired-of_left (a ∷ xs) [] x p m = absurd p
  Paired-of_left (a ∷ xs) (b ∷ ys) x (r, rest) (Memᴰ.head e) =
      (b, Memᴰ.head refl, subst (λ c. R c b) (sym e) r)
  Paired-of_left (a ∷ xs) (b ∷ ys) x (r, rest) (Memᴰ.tail m) =
      let (y, my, ry) = Paired-of_left xs ys x rest m in (y, Memᴰ.tail my, ry)

  Paired-of_right :
      (xs : List A) (ys : List B) (y : B) → Paired R xs ys → Memᴰ y ys → (x : A) × Memᴰ x xs × R x y
  Paired-of_right [] [] y p m = absurd (Memᴰ.not-nil m)
  Paired-of_right [] (b ∷ ys) y p m = absurd p
  Paired-of_right (a ∷ xs) [] y p m = absurd p
  Paired-of_right (a ∷ xs) (b ∷ ys) y (r, rest) (Memᴰ.head e) =
      (a, Memᴰ.head refl, subst (R a) (sym e) r)
  Paired-of_right (a ∷ xs) (b ∷ ys) y (r, rest) (Memᴰ.tail m) =
      let (x, mx, rx) = Paired-of_right xs ys y rest m in (x, Memᴰ.tail mx, rx)

check_items-has :
    (only_image : Bool) (references : List AssetReferenceDto) (r : AssetReferenceDto)
    → Memᴰ r references
    → Memᴰ (item_of only_image r.reference_id) (check_items only_image references)
unfolding check_items
check_items-has only_image [] r m = absurd (Memᴰ.not-nil m)
check_items-has only_image (a ∷ rest) r (Memᴰ.head e) =
    Memᴰ.head (ap (λ x. item_of only_image x.reference_id) e)
check_items-has only_image (a ∷ rest) r (Memᴰ.tail m) =
    Memᴰ.tail (check_items-has only_image rest r m)

check_items-only :
    (only_image : Bool) (references : List AssetReferenceDto) (item : CheckItem)
    → Memᴰ item (check_items only_image references)
    → (r : AssetReferenceDto) × Memᴰ r references × (item_of only_image r.reference_id ≡ item)
unfolding check_items
check_items-only only_image [] item m = absurd (Memᴰ.not-nil m)
check_items-only only_image (a ∷ rest) item (Memᴰ.head e) = (a, Memᴰ.head refl, sym e)
check_items-only only_image (a ∷ rest) item (Memᴰ.tail m) =
    let (r, mr, e) = check_items-only only_image rest item m in (r, Memᴰ.tail mr, e)

asset_items-has :
    (assets : List AssetDto) (asset : AssetDto) (references : List AssetReferenceDto)
    (r : AssetReferenceDto)
    → Memᴰ asset assets
    → asset.references ≡ some references
    → Memᴰ r references
    → Memᴰ (item_of false r.reference_id) (asset_items assets)
unfolding asset_items
asset_items-has [] asset references r m e among = absurd (Memᴰ.not-nil m)
asset_items-has (a ∷ rest) asset references r (Memᴰ.head same) e m =
    Memᴰ.append_left (asset_items rest) (
      check_items-has false (or_else a.references []) r (
        subst (λ (o : Option (List AssetReferenceDto)). Memᴰ r (or_else o []))
          (sym e ∙ ap (λ x. x.references) same) m))
asset_items-has (a ∷ rest) asset references r (Memᴰ.tail later) e m =
    Memᴰ.append_right (check_items false (or_else a.references []))
      (asset_items-has rest asset references r later e m)

-- A member of an optional list is one of the list.
or_else-only :
    {A : Type 0} (o : Option (List A)) (x : A)
    → Memᴰ x (or_else o [])
    → (xs : List A) × (o ≡ some xs) × Memᴰ x xs
or_else-only none x m = absurd (Memᴰ.not-nil m)
or_else-only (some xs) x m = (xs, refl, m)

asset_items-only :
    (assets : List AssetDto) (item : CheckItem)
    → Memᴰ item (asset_items assets)
    → (asset : AssetDto) × Memᴰ asset assets
      × ((references : List AssetReferenceDto) × (asset.references ≡ some references)
          × ((r : AssetReferenceDto) × Memᴰ r references × (item_of false r.reference_id ≡ item)))
unfolding asset_items
asset_items-only [] item m = absurd (Memᴰ.not-nil m)
asset_items-only (a ∷ rest) item m =
    elim (Memᴰ.append_cases (check_items false (or_else a.references [])) m) [
      | inl here ↦
          let (r, mr, e) = check_items-only false (or_else a.references []) item here in
          let (references, given, among) = or_else-only a.references r mr in
          (a, Memᴰ.head refl, (references, given, (r, among, e)))
      | inr later ↦
          let (asset, ma, found) = asset_items-only rest item later in (asset, Memᴰ.tail ma, found)
    ]

checking_list-has :
    (content : AssetIncludedRequest) (only_image : Bool) (id : String)
    → Named content only_image id
    → Memᴰ (item_of only_image id) (checking_list content.profile_part content.content_part)
unfolding checking_list
checking_list-has content _ _ (as_icon activity icons r p i m) =
    rw (p, i, checking_list) (check_items-has true icons r m)
checking_list-has content _ _ (as_asset note assets asset references r p n a ma e m) =
    rw (p, n, a, checking_list) (asset_items-has assets asset references r ma e m)

checking_list-only :
    (content : AssetIncludedRequest) (p : Option ProfileActivityDto) (n : Option NoteActivityDto)
    (item : CheckItem)
    → content.profile_part ≡ p
    → content.content_part ≡ n
    → Memᴰ item (checking_list p n)
    → Named content item.only_image item.reference_id
unfolding checking_list
checking_list-only content (some activity) n item ep en m =
    let (r, mr, e) = check_items-only true (or_else activity.icon []) item m in
    let (icons, given, among) = or_else-only activity.icon r mr in
    subst (λ (i : CheckItem). Named content i.only_image i.reference_id) e
      (as_icon activity icons r ep given among)
checking_list-only content none (some note) item ep en m =
    let (asset, ma, (references, er, (r, mr, e))) =
      asset_items-only (or_else note.assets []) item m in
    let (assets, given, among) = or_else-only note.assets asset ma in
    subst (λ (i : CheckItem). Named content i.only_image i.reference_id) e
      (as_asset note assets asset references r ep en given among er mr)
checking_list-only content none none item ep en m = absurd (Memᴰ.not-nil m)

module _ (metadata_json : Codec AssetMetadata) (redis : Redis) where
  -- There are metadata in the store for each asset that the request names, those of an image where
  -- it is an icon, with an entry of the map for it; and each entry is that of an asset it names.
  pub record IsChecked (db : redis.Db) (content : AssetIncludedRequest)
      (map : List (String × String)) : Type 0 where
    pub complete :
        (only_image : Bool) (id : String)
        → Named content only_image id
        → (entry : String × String) × Memᴰ entry map
          × IsAdmitted metadata_json redis db (item_of only_image id) entry
    pub sound :
        (entry : String × String)
        → Memᴰ entry map
        → (only_image : Bool) × ((id : String) × Named content only_image id
            × IsAdmitted metadata_json redis db (item_of only_image id) entry)

  -- A request passes the validation only if there are metadata in the store for every icon of its
  -- profile, and those of an image, or, where it has no profile, for every reference of every asset
  -- of its note; the map that is passed on has an entry for each of them with the mime type of its
  -- metadata, and no other entries.
  pub validate_assets_and_fetch_metadata-IsChecked :
      (db : redis.Db) (content : AssetIncludedRequest) (map : List (String × String))
      → validate_assets_and_fetch_metadata metadata_json redis db content ≡ valid map
      → IsChecked db content map
  validate_assets_and_fetch_metadata-IsChecked db content map e =
      let paired = validate_assets_and_fetch_metadata-Paired metadata_json redis db content map e in
      record {
        complete = λ only_image id named.
            Paired-of_left (IsAdmitted metadata_json redis db) _ map (item_of only_image id) paired
              (checking_list-has content only_image id named);
        sound = λ entry m.
            let (item, among, admitted) =
              Paired-of_right (IsAdmitted metadata_json redis db) _ map entry paired m in
            (
              item.only_image,
              (
                item.reference_id,
                checking_list-only content content.profile_part content.content_part item refl refl
                    among,
                admitted,
              ),
            );
      }
