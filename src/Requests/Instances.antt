-- ===== src/Requests/Instances.antt =====
-- IPFS and the texts of the language as plain functions: requests complete in the order in which they
-- are made, and one asset is missing.
use mathlib.Core.List.Perm
use content_publishing_servi.Common.{some, if◌then◌else◌, ◌==ₛ◌}
use content_publishing_servi.Requests.Attachments.{Ipfs}
use content_publishing_servi.Requests.Announcing.{Texts}

abbrev pub ipfs : Ipfs
ipfs = record {
  gateway_url = "http://host/ipfs/[CID]";
  get_pinned = λ cid. some (if cid ==ₛ "gone" then "" else "content");
  pin = λ text. some ("bafy", "hash");
  calculate_dsnp_hash = λ content. "h";
  in_order_of_completion = λ xs. xs;
  in_order_of_completion-Perm = λ xs. Perm.refl xs;
}

abbrev pub texts : Texts
texts = record {
  iso_date = λ date. some date;
  note_json = λ note. note.content;
  profile_json = λ profile. "profile";
}
