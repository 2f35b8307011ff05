-- ===== src/Dtos/Samples.antt =====
-- A broadcast with a video, a hashtag and a mention, and a checker that takes numbers and dates as they
-- are written in it.
use content_publishing_servi.Common.{
  String, Option, none, some, List, [], ◌∷◌, Bool, true, false, not, ◌==ₛ◌, big_int, leb, ℕ,
}
use content_publishing_servi.Requests.Content.{
  TagDto, AssetReferenceDto, AssetDto, NoteActivityDto, RequestJob, broadcast,
}
use content_publishing_servi.Dtos.{Validators}

abbrev tested : (ℕ → Bool) → String → Bool
tested rule s = elim (big_int s) [ none ↦ false | some n ↦ rule n ]

abbrev pub sample_validators : Validators
sample_validators = record {
  is_number = tested (λ n. true);
  is_positive = tested (λ n. leb 1 n);
  at_least = λ s low. tested (λ n. leb low n) s;
  at_most = λ s high. tested (λ n. leb n high) s;
  is_latitude = tested (λ n. leb n 90);
  is_longitude = tested (λ n. leb n 180);
  is_iso8601 = λ s. s ==ₛ "2024-01-01T00:00:00Z";
  is_url = λ s. not (s ==ₛ "");
}

abbrev pub clip : AssetReferenceDto
clip = record {
  reference_id = "clip";
  height = some "480";
  width = some "640";
  duration = some "PT5.5S";
}

abbrev video_of : List AssetReferenceDto → AssetDto
video_of references = record {
  type_name = "video";
  references = some references;
  name = some "clip";
  href = none;
}

abbrev pub tag : String → Option String → Option String → TagDto
tag type_name name mentioned_id = record {
  type_name = type_name;
  name = name;
  mentioned_id = mentioned_id;
}

abbrev pub note_with : List TagDto → List AssetReferenceDto → NoteActivityDto
note_with tags references = record {
  name = none;
  tag = some tags;
  location = none;
  content = some "hello";
  published = some "2024-01-01T00:00:00Z";
  assets = some (video_of references ∷ []);
}

abbrev pub two_tags : List TagDto
two_tags = tag "hashtag" (some "news") none ∷ tag "mention" none (some "dsnp://1234") ∷ []

abbrev pub sample_job : RequestJob
sample_job = record {
  id = "r1";
  dsnp_user_id = "1";
  asset_to_mime_type = some (("clip", "video/mp4") ∷ []);
  content = broadcast (note_with two_tags (clip ∷ []));
  dependency_attempt = 0;
}
