-- ===== src/IpfsClient/Pinned.antt =====
-- A file that ipfsPin has pinned is found by isPinned and read by getPinned.
use content_publishing_servi.Common.{
  String, Option, some, Bool, true, false, ◌≡◌, refl, ◌∙◌, inl, inr, ap, sym,
}
use mathlib.Core.Path.{subst}
use mathlib.Core.Option.{some-injective}
use content_publishing_servi.IpfsClient.{
  Tools, IpfsConfig, FilePin, PinResult, pinned, add_post, lists, ipfs_pin, is_pinned_v0,
  is_pinned_cid, is_pinned, get_checked, get_pinned, cat_post, ls_post,
}
use content_publishing_servi.IpfsClient.Node.{AddData, Server}
use content_publishing_servi.IpfsClient.Failures.{
  Ends, refused, without_data, incomplete, unreadable, kept, ipfs_pin-EndsWith,
}

module _ (tools : Tools) (config : IpfsConfig) where
  open tools use {cids}

  -- The answer to add that stands behind a pinned file
  record Source (answer : Option (Option AddData)) (f : FilePin) : Type 0 where
    pub a : AddData
    pub h : String
    pub parsed : cids.Cid
    pub at_answer : answer ≡ some (some a)
    pub at_hash : a.hash_field ≡ some h
    pub at_cid : cids.parse h ≡ some parsed
    pub at_file : f.cid ≡ cids.to_string (cids.to_v1 parsed)

  Ends-Source :
      (filename reported : String) (answer : Option (Option AddData)) (r : PinResult) (f : FilePin)
      → Ends tools config filename reported answer r
      → r ≡ pinned f
      → Source answer f
  Ends-Source filename reported answer r f refused e = cc
  Ends-Source filename reported answer r f without_data e = cc
  Ends-Source filename reported answer r f (incomplete i) e = cc
  Ends-Source filename reported answer r f (unreadable i p) e = cc
  Ends-Source filename reported answer r f (kept (eh, es) t p) e = record {
    a = _;
    h = _;
    parsed = _;
    at_answer = refl;
    at_hash = eh;
    at_cid = p;
    at_file = cc;
  }

  module _ (server : Server cids config.ipfs_endpoint) where
    open server use {Store, add, cat, ls, ls-add, cat-add}

    is_pinned_at :
        (store : Store) (cid : String) (c v0 : cids.Cid) (json : String)
        → cids.parse cid ≡ some c
        → cids.to_v0 c ≡ some v0
        → ls store (ls_post tools config (cids.to_string v0)) ≡ some json
        → lists tools config (cids.to_string v0) (some json) ≡ true
        → is_pinned tools config server store cid ≡ some true
    unfolding is_pinned
    is_pinned_at store cid c v0 json p q l m = rw (p, is_pinned_cid, q, is_pinned_v0, l) (ap some m)

    get_pinned_at :
        (store : Store) (cid file : String) (check_existence : Bool)
        → is_pinned tools config server store cid ≡ some true
        → cat store (cat_post tools config cid) ≡ some file
        → get_pinned tools config server store cid check_existence ≡ some file
    unfolding get_pinned
    get_pinned_at store cid file true p q = rw (p, get_checked) q
    get_pinned_at store cid file false p q = q

    found_again :
        (store : Store) (mime_type file filename : String) (f : FilePin) (c v0 : cids.Cid)
        (check_existence : Bool)
        → let r = add store (add_post tools config filename mime_type file) in
          Source r.0 f
          → cids.parse f.cid ≡ some c
          → cids.to_v0 c ≡ some v0
          → (is_pinned tools config server r.1 f.cid ≡ some true)
            × (get_pinned tools config server r.1 f.cid check_existence ≡ some file)
    unfolding add_post ls_post cat_post lists
    found_again store mime_type file filename f c v0 check_existence source p q =
        let v1 = cids.to_v1 source.parsed in
        let same : v1 ≡ c =
          some-injective _ _
            (sym (cids.parse-to_string v1) ∙ ap cids.parse (sym source.at_file) ∙ p) in
        let at_v0 : cids.to_v0 source.parsed ≡ some v0 =
          sym (cids.to_v0-to_v1 source.parsed) ∙ ap cids.to_v0 same ∙ q in
        let added =
          ap (λ o. (o, (add store (add_post tools config filename mime_type file)).1))
            source.at_answer in
        let (json, l, m) =
          ls-add store _ _ _ source.a source.h source.parsed v0 added source.at_hash source.at_cid
            at_v0 in
        let read =
          cat-add store _ _ _ source.a source.h source.parsed added source.at_hash source.at_cid in
        let is_there = is_pinned_at _ f.cid c v0 json p q l m in
        (is_there, get_pinned_at _ f.cid file check_existence is_there (rw source.at_file read))

    -- A file that ipfsPin has pinned is pinned afterwards under the identifier that was answered, and
    -- getPinned gives its content back, whether it checks the existence or not; the identifier is
    -- taken to have a form in version 0.
    pub get_pinned-ipfs_pin :
        (store store' : Store) (mime_type file : String) (calculates : Bool) (uuid : String)
        (f : FilePin) (c v0 : cids.Cid) (check_existence : Bool)
        → ipfs_pin tools config server store mime_type file calculates uuid ≡ (pinned f, store')
        → cids.parse f.cid ≡ some c
        → cids.to_v0 c ≡ some v0
        → (is_pinned tools config server store' f.cid ≡ some true)
          × (get_pinned tools config server store' f.cid check_existence ≡ some file)
    get_pinned-ipfs_pin store store' mime_type file calculates uuid f c v0 check_existence e p q =
        elim (ipfs_pin-EndsWith tools config server store mime_type file calculates uuid) [
          | inl (unknown, r) ↦ cc
          | inr (x, w) ↦
              let source = Ends-Source w.filename _ _ _ f w.ends (ap (λ r. r.0) e) in
              let (is_there, read) =
                found_again store mime_type file w.filename f c v0 check_existence source p q in
              let same = sym w.stored ∙ ap (λ r. r.1) e in
              subst
                (λ s.
                  (is_pinned tools config server s f.cid ≡ some true)
                  × (get_pinned tools config server s f.cid check_existence ≡ some file))
                same (is_there, read)
        ]
