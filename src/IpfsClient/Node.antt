-- ===== src/IpfsClient/Node.antt =====
-- The IPFS server and the library of content identifiers: parameters of the model, with what
-- libs/common/src/utils/ipfs.client.ts relies on.
use content_publishing_servi.Common.{String, ◌+++◌, Option, none, some, true, ◌≡◌}
use content_publishing_servi.Requests.Urls.{includes}

-- CID.parse and toV0 throw on what they cannot read or express, which is none. The two versions of an
-- identifier stand for one content.
pub record CidLibrary : Type 1 where
  pub Cid : Type 0
  pub parse : String → Option Cid
  pub to_string : Cid → String
  pub to_v0 : Cid → Option Cid
  pub to_v1 : Cid → Cid
  pub bytes : Cid → String
  pub parse-to_string : (c : Cid) → parse (to_string c) ≡ some c
  pub to_v0-to_v1 : (c : Cid) → to_v0 (to_v1 c) ≡ to_v0 c

-- A form with one file
pub record Form : Type 0 where
  pub file_name : String
  pub content_type : String
  pub buffer : String

-- A POST: its URL, its body, which may be null, and its authorization header
pub record Post : Type 0 where
  pub url : String
  pub body : Option Form
  pub authorization : String

-- The data of an answer to add; a field may be missing
pub record AddData : Type 0 where
  pub hash_field : Option String
  pub name_field : String
  pub size_field : Option String

-- A server at an endpoint. A call that is rejected answers none; the data of an answer to add may be
-- missing. A file that was added is listed under the text of version 0, and read under that of
-- version 1, with the authorization it was added with.
pub record Server (cids : CidLibrary) (endpoint : String) : Type 1 where
  pub Store : Type 0
  pub add : Store → Post → Option (Option AddData) × Store
  pub cat : Store → Post → Option String
  -- the JSON text of the data
  pub ls : Store → Post → Option String
  pub ls-add :
      (s s' : Store) (f : Form) (auth : String) (a : AddData) (h : String) (c v0 : cids.Cid)
      → add s (record { url = endpoint +++ "/api/v0/add"; body = some f; authorization = auth })
        ≡ (some (some a), s')
      → a.hash_field ≡ some h
      → cids.parse h ≡ some c
      → cids.to_v0 c ≡ some v0
      → (json : String) × (ls s' (record {
        url = endpoint +++ ("/api/v0/pin/ls?type=all&quiet=true&arg=" +++ cids.to_string v0);
        body = none;
        authorization = auth;
      })
          ≡ some json)
        × (includes json (cids.to_string v0) ≡ true)
  pub cat-add :
      (s s' : Store) (f : Form) (auth : String) (a : AddData) (h : String) (c : cids.Cid)
      → add s (record { url = endpoint +++ "/api/v0/add"; body = some f; authorization = auth })
        ≡ (some (some a), s')
      → a.hash_field ≡ some h
      → cids.parse h ≡ some c
      → cat s' (record {
        url = endpoint +++ ("/api/v0/cat?arg=" +++ cids.to_string (cids.to_v1 c));
        body = none;
        authorization = auth;
      })
        ≡ some f.buffer
