-- ===== src/IpfsClient/Tests.antt =====
-- Concrete runs: identifiers are a letter for the version and the content, and the server keeps the
-- files in a list.
use Prim.Native.Char.{code}
use Prim.Native.String.{begins, find}
use Prim.Native.String.find
use native.Mathlib.Omega.{arith}
use mathlib.Core.Path.{ap, ◌∙◌, subst₂}
use mathlib.Core.Option.{some-injective}
use text.Mathlib.TextPositions.{eq_refl, compare_self}
use content_publishing_servi.Common.{
  ℕ, String, ◌+++◌, Option, none, some, List, [], ◌∷◌, true, ◌≡◌, refl, ◌==ₛ◌, ◌==◌, if◌then◌else◌,
  ◌⊎◌,
}
use content_publishing_servi.Requests.Urls.{includes}
use content_publishing_servi.IpfsClient.{
  Tools, IpfsConfig, FilePin, pinned, threw, unknown_mimetype, ipfs_pin, is_pinned, get_pinned,
}
use content_publishing_servi.IpfsClient.Node.{CidLibrary, Form, AddData, Server}
use content_publishing_servi.IpfsClient.Pinned.{get_pinned-ipfs_pin}
use content_publishing_servi.IpfsClient.Failures.{EndsWith, ipfs_pin-EndsWith}

data Version : Type 0 where
  v0 v1 : Version

abbrev parse_version : String → Option (Version × String)
parse_version String.[] = none
parse_version (String.◌∷◌ c s) =
    if code c == 81 then some (v0, s) else if code c == 98 then some (v1, s) else none

abbrev cid_text : Version × String → String
cid_text (v0, s) = String.◌∷◌ "Q" s
cid_text (v1, s) = String.◌∷◌ "b" s

parse_version-cid_text : (c : Version × String) → parse_version (cid_text c) ≡ some c
parse_version-cid_text (v0, s) = refl
parse_version-cid_text (v1, s) = refl

abbrev letter_cids : CidLibrary
letter_cids = record {
  Cid = Version × String;
  parse = parse_version;
  to_string = cid_text;
  to_v0 = λ c. some (v0, c.1);
  to_v1 = λ c. (v1, c.1);
  bytes = λ c. c.1;
  parse-to_string = parse_version-cid_text;
  to_v0-to_v1 = λ c. refl;
}

abbrev some_tools : Tools
some_tools = record {
  cids = letter_cids;
  hasher = record {
    code = 45600;
    digest = λ s. "hash-" +++ s;
    create = λ code s. s;
    base58btc = λ s. "z" +++ s;
  };
  get_extension = λ m. if m ==ₛ "image/png" then some "png" else none;
  base64 = λ s. s;
}

abbrev some_config : IpfsConfig
some_config = record {
  ipfs_endpoint = "http://ipfs";
  ipfs_gateway_url = "http://gateway/ipfs/[CID]";
  ipfs_basic_auth_user = "";
  ipfs_basic_auth_secret = "";
}

abbrev read_file : List String → String → Option String
read_file [] url = none
read_file (file ∷ rest) url =
    if ("http://ipfs" +++ ("/api/v0/cat?arg=" +++ cid_text (v1, file))) ==ₛ url
    then some file
    else read_file rest url

abbrev list_file : List String → String → Option String
list_file [] url = none
list_file (file ∷ rest) url =
    if ("http://ipfs" +++ ("/api/v0/pin/ls?type=all&quiet=true&arg=" +++ cid_text (v0, file)))
      ==ₛ url
    then some (cid_text (v0, file))
    else list_file rest url

abbrev add_file : List String → Option Form → Option (Option AddData) × List String
add_file files none = (some none, files)
add_file files (some f) = (
  some (
      some (record {
        hash_field = some (cid_text (v0, f.buffer));
        name_field = f.file_name;
        size_field = some "12";
      })),
  f.buffer ∷ files,
)

begins_self : (s : String) (y n : ℕ) → begins s s y n ≡ y
begins_self String.[] y n = refl
begins_self (String.◌∷◌ c s) y n = rw (compare_self (code c)) (begins_self s y n)

find_self : (s : String) → find s s ≡ 0
find_self String.[] = refl
find_self (String.◌∷◌ c s) = find.cons c s (String.◌∷◌ c s) ∙ begins_self (String.◌∷◌ c s) 0 _

includes_self : (s : String) → includes s s ≡ true
unfolding includes
includes_self s = rw (find_self s) (ground arith)

module _ (files : List String) (f : Form) (a : AddData) (h : String) (c : Version × String)
    (at_hash : a.hash_field ≡ some h) (at_cid : parse_version h ≡ some c) where
  abbrev AfterAdd : List String → Type 0
  AfterAdd s' = add_file files (some f) ≡ (some (some a), s')

  cid_is : (s' : List String) → AfterAdd s' → (v0, f.buffer) ≡ c
  cid_is s' e =
      let hash_is : some (cid_text (v0, f.buffer)) ≡ some h =
        ap (λ r. elim (r.0) [ some (some d) ↦ d.hash_field | _ ↦ none ]) e ∙ at_hash in
      some-injective _ _ (ap parse_version (some-injective _ _ hash_is) ∙ at_cid)

  list_add :
      (s' : List String) (w : Version × String)
      → AfterAdd s'
      → some (v0, c.1) ≡ some w
      → (json : String) × (list_file s'
            ("http://ipfs" +++ ("/api/v0/pin/ls?type=all&quiet=true&arg=" +++ cid_text w))
          ≡ some json)
        × (includes json (cid_text w) ≡ true)
  list_add s' w e at_v0 =
      let same : (v0, f.buffer) ≡ w =
        ap (λ d. (v0, d.1)) (cid_is s' e) ∙ some-injective _ _ at_v0 in
      subst₂
        (λ s w.
          (json : String) × (list_file s
              ("http://ipfs" +++ ("/api/v0/pin/ls?type=all&quiet=true&arg=" +++ cid_text w))
            ≡ some json)
          × (includes json (cid_text w) ≡ true))
        (ap (λ r. r.1) e) same (cid_text (v0, f.buffer), rw eq_refl refl, includes_self _)

  read_add :
      (s' : List String)
      → AfterAdd s'
      → read_file s' ("http://ipfs" +++ ("/api/v0/cat?arg=" +++ cid_text (v1, c.1))) ≡ some f.buffer
  read_add s' e =
      subst₂
        (λ s (d : Version × String).
          read_file s ("http://ipfs" +++ ("/api/v0/cat?arg=" +++ cid_text (v1, d.1)))
          ≡ some f.buffer)
        (ap (λ r. r.1) e) (cid_is s' e) (rw eq_refl refl)

abbrev list_server : Server letter_cids "http://ipfs"
list_server = record {
  Store = List String;
  add = λ files p. add_file files p.body;
  cat = λ files p. read_file files p.url;
  ls = λ files p. list_file files p.url;
  ls-add = λ s s' f auth a h c w e eh ec ew. list_add s f a h c eh ec s' w e ew;
  cat-add = λ s s' f auth a h c e eh ec. read_add s f a h c eh ec s' e;
}

abbrev the_pin : FilePin
the_pin = record {
  cid = "bcat";
  cid_bytes = "cat";
  file_name = "zhash-cat.png";
  size = "12";
  hash = "zhash-cat";
}

pins :
    ipfs_pin some_tools some_config list_server [] "image/png" "cat" true "uuid"
    ≡ (pinned the_pin, "cat" ∷ [])
unfolding ipfs_pin
pins = refl

refuses :
    ipfs_pin some_tools some_config list_server [] "text/x" "cat" true "uuid"
    ≡ (threw (unknown_mimetype "text/x"), [])
unfolding ipfs_pin
refuses = refl

reads_nothing : get_pinned some_tools some_config list_server [] "bcat" true ≡ some ""
unfolding get_pinned
reads_nothing = refl

get_pinned-ipfs_pin_example :
    (is_pinned some_tools some_config list_server ("cat" ∷ []) "bcat" ≡ some true)
    × (get_pinned some_tools some_config list_server ("cat" ∷ []) "bcat" true ≡ some "cat")
get_pinned-ipfs_pin_example =
    get_pinned-ipfs_pin some_tools some_config list_server [] ("cat" ∷ []) "image/png" "cat" true
      "uuid" the_pin (v1, "cat") (v0, "cat") true pins refl refl

ipfs_pin-EndsWith_example :
    ((some_tools.get_extension "image/png" ≡ none)
      × (ipfs_pin some_tools some_config list_server [] "image/png" "cat" true "uuid"
          ≡ (threw (unknown_mimetype "image/png"), [])))
    ⊎ ((extension : String) × EndsWith some_tools some_config list_server [] "image/png" "cat" true
          "uuid" extension
          (ipfs_pin some_tools some_config list_server [] "image/png" "cat" true "uuid"))
ipfs_pin-EndsWith_example =
    ipfs_pin-EndsWith some_tools some_config list_server [] "image/png" "cat" true "uuid"
