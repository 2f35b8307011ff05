-- ===== src/IpfsClient/Failures.antt =====
-- Every way in which a call of ipfsPin ends.
use content_publishing_servi.Common.{
  String, ◌+++◌, Option, none, some, Bool, true, false, ◌&&◌, ◌≡◌, refl, Option-cases, Bool-cases,
  inl, inr, ◌⊎◌, if◌then◌else◌,
}
use content_publishing_servi.IpfsClient.{
  Tools, IpfsConfig, PinResult, pinned, threw, unknown_mimetype, unable_to_pin, request_failed,
  bad_cid, is_truthy, add_post, ipfs_hash_buffer, pinned_file, check_add, read_add, with_hash,
  ipfs_pin_buffer, pin_extension, ipfs_pin,
}
use content_publishing_servi.IpfsClient.Node.{AddData, Server}

module _ (tools : Tools) (config : IpfsConfig) where
  open tools use {cids, hasher, get_extension}

  -- What a pin of the file `filename` ends with at an answer to add, with the hash that it reports
  pub data Ends (filename reported : String) : Option (Option AddData) → PinResult → Type 0 where
    refused : Ends filename reported none (threw request_failed)
    without_data : Ends filename reported (some none) (threw (unable_to_pin filename))
    incomplete :
        {a : AddData}
        → (is_truthy a.hash_field && is_truthy a.size_field) ≡ false
        → Ends filename reported (some (some a)) (threw (unable_to_pin filename))
    unreadable :
        {a : AddData} {h size : String}
        → (a.hash_field ≡ some h) × (a.size_field ≡ some size)
        → cids.parse h ≡ none
        → Ends filename reported (some (some a)) (threw bad_cid)
    kept :
        {a : AddData} {h size : String} {parsed : cids.Cid}
        → (a.hash_field ≡ some h) × (a.size_field ≡ some size)
        → (is_truthy (some h) && is_truthy (some size)) ≡ true
        → cids.parse h ≡ some parsed
        → Ends filename reported (some (some a)) (
            pinned (record {
              cid = cids.to_string (cids.to_v1 parsed);
              cid_bytes = cids.bytes (cids.to_v1 parsed);
              file_name = a.name_field;
              size = size;
              hash = reported;
            }))

  module _ (filename file_name : String) (calculates : Bool) where
    abbrev reported : String
    reported = if calculates then file_name else ""

    abbrev EndsAt : AddData → PinResult → Type 0
    EndsAt a r =
        Ends filename reported (some (some a)) (with_hash tools config calculates file_name r)

    check_add-Ends :
        (a : AddData) (hash size : Option String)
        → a.hash_field ≡ hash
        → a.size_field ≡ size
        → EndsAt a (check_add tools config filename a hash size)
    unfolding check_add with_hash
    check_add-Ends a none size eh es = incomplete (rw eh refl)
    check_add-Ends a (some h) none eh es = incomplete (
        rw (eh, es)
          elim (Bool-cases (is_truthy (some h))) [ inl e ↦ rw e refl | inr e ↦ rw e refl ])
    check_add-Ends a (some h) (some size) eh es =
        elim (Bool-cases (is_truthy (some h) && is_truthy (some size))) [
          | inl e ↦ elim (Option-cases (cids.parse h)) [
            | inl p ↦ rw (e, p, check_add, pinned_file) (unreadable (eh, es) p)
            | inr (c, p) ↦ rw (e, p, check_add, pinned_file) (kept (eh, es) e p)
          ]
          | inr e ↦ rw (e, check_add) (incomplete (rw (eh, es) e))
        ]

    read_add-Ends :
        (answer : Option (Option AddData))
        → Ends filename reported answer
            (with_hash tools config calculates file_name (read_add tools config filename answer))
    unfolding read_add with_hash
    read_add-Ends none = refused
    read_add-Ends (some none) = without_data
    read_add-Ends (some (some a)) = check_add-Ends a a.hash_field a.size_field refl refl

  module _ (server : Server cids config.ipfs_endpoint) where
    open server use {Store, add}

    -- The name that a file is pinned under, without its extension
    abbrev pub name_of : String → Bool → String → String
    name_of file calculates uuid = if calculates then ipfs_hash_buffer hasher file else uuid

    -- The ends of ipfsPin
    pub record EndsWith (store : Store) (mime_type file : String) (calculates : Bool)
        (uuid : String) (extension : String) (r : PinResult × Store) : Type 0 where
      pub at_type : get_extension mime_type ≡ some extension
      pub filename : String
      pub at_name : filename ≡ name_of file calculates uuid +++ ("." +++ extension)
      pub ends :
          Ends filename
            (if calculates then ipfs_hash_buffer hasher file else "")
            (add store (add_post tools config filename mime_type file)).0
            r.0
      pub stored : r.1 ≡ (add store (add_post tools config filename mime_type file)).1

    pin_extension-EndsWith :
        (store : Store) (mime_type file : String) (calculates : Bool) (uuid extension : String)
        → get_extension mime_type ≡ some extension
        → EndsWith store mime_type file calculates uuid extension (
            pin_extension tools config server store mime_type file calculates
              (name_of file calculates uuid)
              (some extension))
    unfolding pin_extension ipfs_pin_buffer
    pin_extension-EndsWith store mime_type file true uuid extension e = record {
      at_type = e;
      filename = ipfs_hash_buffer hasher file +++ ("." +++ extension);
      at_name = refl;
      ends = read_add-Ends _ (ipfs_hash_buffer hasher file) true _;
      stored = refl;
    }
    pin_extension-EndsWith store mime_type file false uuid extension e = record {
      at_type = e;
      filename = uuid +++ ("." +++ extension);
      at_name = refl;
      ends = read_add-Ends _ uuid false _;
      stored = refl;
    }

    -- A call of ipfsPin either fails with the mime type, if that has no extension, and then asks the
    -- server nothing; or it posts the file under its hash, or a random id, with the extension, and
    -- ends as the answer says: it fails if the call is rejected, if the data, their hash or their
    -- size are missing or empty, or if the hash is no identifier, and else it answers the identifier
    -- in version 1, the size, and the file's hash if that was wanted.
    pub ipfs_pin-EndsWith :
        (store : Store) (mime_type file : String) (calculates : Bool) (uuid : String)
        → ((get_extension mime_type ≡ none)
            × (ipfs_pin tools config server store mime_type file calculates uuid
                ≡ (threw (unknown_mimetype mime_type), store)))
          ⊎ ((extension : String) × EndsWith store mime_type file calculates uuid extension
                (ipfs_pin tools config server store mime_type file calculates uuid))
    unfolding ipfs_pin
    ipfs_pin-EndsWith store mime_type file calculates uuid =
        elim (Option-cases (get_extension mime_type)) [
          | inl e ↦ inl (e, rw (e, pin_extension) refl)
          | inr (x, e) ↦
              inr (x, rw e (pin_extension-EndsWith store mime_type file calculates uuid x e))
        ]
