-- ===== src/Reachability/Claims.antt =====
-- A record whose claims pass the check names documents that can be fetched.
use cats.Prelude.{String, ◌≡◌, refl, sym, ap, ◌∙◌, true, Option, none, some, arith}
use cats.Result.{Result, ok, err, >>=-eq-ok, require-eq-ok}
use cats.Json.{Fields, str, obj, get, truthy, text, as_dict, ◌or◌}
use cats.Json.Laws.{equal-str}
use cats.ExecutionBind.{HttpGetJson}
use cats.Lineage.Dicts.{require_dict-obj}
use cats.Reachability.{
  HttpGetBytes, uri_from_record, field_text, locators_field, reached, require_json_object,
  bom_ldp_uri_of, invoice_agrees, check_bom, when_given, check_object,
  assert_registry_claims_reachable,
}

-- the record has an address under the key: its own, else that of its locators
pub data Names (record' : Fields) (key : String) : String → Type 0 where
  own : (uri : String) → text (get key record') ≡ some uri → Names record' key uri
  located :
      (locs : Fields) (uri : String)
      → text (get key record') ≡ none
      → get "locators" record' ≡ obj locs
      → text (get key locs) ≡ some uri
      → Names record' key uri

locators_field-obj :
    (record' locs : Fields) (key uri : String)
    → get "locators" record' ≡ obj locs
    → text (get key locs) ≡ some uri
    → field_text key (locators_field record') ≡ some uri
unfolding field_text locators_field as_dict ◌or◌ truthy get
locators_field-obj record' Fields.end key uri there named = ground arith
locators_field-obj record' (Fields.field k v fs) key uri there named = rw (there, named) refl

uri_from_record-Names :
    (record' : Fields) (key uri : String)
    → Names record' key uri
    → uri_from_record record' key ≡ some uri
unfolding uri_from_record field_text as_dict
uri_from_record-Names record' key uri (own _ named) = rw (uri_from_record, named) refl
uri_from_record-Names record' key uri (located locs _ missing there named) =
    rw (uri_from_record, missing, locators_field-obj record' locs key uri there named) refl

reached-ok : {A : Type 0} (m : Result A) (a : A) → reached m ≡ ok a → m ≡ ok a
unfolding reached
reached-ok (ok b) a h = h
reached-ok (err e) a h = ground arith

-- the address serves a dict
pub record ServesDict (http_get_json : HttpGetJson) (uri : String) : Type 0 where
  pub body : Fields
  pub served : http_get_json uri ≡ ok (obj body)

object-served :
    (http_get_json : HttpGetJson) (uri : String) (fs : Fields)
    → require_json_object http_get_json uri ≡ ok fs
    → http_get_json uri ≡ ok (obj fs)
unfolding require_json_object
object-served http_get_json uri fs h =
    let (body, e, h1) = >>=-eq-ok (reached (http_get_json uri)) _ h in
    reached-ok (http_get_json uri) body e ∙ ap (λ v. ok v) (require_dict-obj body fs h1)

given-served :
    (http_get_json : HttpGetJson) (claim : Option String) (uri : String)
    → when_given claim (check_object http_get_json) ≡ ok tt
    → claim ≡ some uri
    → ServesDict http_get_json uri
unfolding when_given check_object
given-served http_get_json none uri h e = ground arith
given-served http_get_json (some u) uri h e =
    let (fs, got, _) = >>=-eq-ok (require_json_object http_get_json u) _ h in
    let same : u ≡ uri = ground arith in
    rw (sym same) (record { body = fs; served = object-served http_get_json u fs got })

-- the address serves a BOM, which names the Invoice of the record, where both name one
pub record ServesBom (record' : Fields) (http_get_json : HttpGetJson) (uri : String) : Type 0 where
  pub bom : Fields
  pub served : http_get_json uri ≡ ok (obj bom)
  pub agrees :
      (inv : String)
      → Names record' "invoice_uri" inv
      → truthy (get "invoice_uri" bom) ≡ true
      → get "invoice_uri" bom ≡ str inv

agrees-same :
    (bom : Fields) (claim : Option String) (inv : String)
    → invoice_agrees bom claim ≡ true
    → claim ≡ some inv
    → truthy (get "invoice_uri" bom) ≡ true
    → get "invoice_uri" bom ≡ str inv
unfolding invoice_agrees
agrees-same bom none inv h e given = ground arith
agrees-same bom (some c) inv h e given =
    let same : c ≡ inv = ground arith in
    equal-str (get "invoice_uri" bom) c (rw given at h) ∙ ap (λ u. str u) same

check_bom-served :
    (http_get_json : HttpGetJson) (record' : Fields) (claim : Option String) (uri : String)
    → check_bom http_get_json record' claim ≡ ok tt
    → claim ≡ some uri
    → ServesBom record' http_get_json uri
unfolding check_bom
check_bom-served http_get_json record' none uri h e = ground arith
check_bom-served http_get_json record' (some u) uri h e =
    let (bom, got, h1) = >>=-eq-ok (require_json_object http_get_json u) _ h in
    let agreed = require-eq-ok (invoice_agrees bom (uri_from_record record' "invoice_uri")) _ h1 in
    let same : u ≡ uri = ground arith in
    rw (sym same) (record {
      bom = bom;
      served = object-served http_get_json u bom got;
      agrees = λ inv named given.
          agrees-same bom (uri_from_record record' "invoice_uri") inv agreed
            (uri_from_record-Names record' "invoice_uri" inv named) given;
    })

bom_ldp_uri_of-Names :
    (record' : Fields) (uri : String)
    → Names record' "bom_ldp_uri" uri
    → bom_ldp_uri_of record' ≡ ok (some uri)
unfolding bom_ldp_uri_of
bom_ldp_uri_of-Names record' uri named =
    rw (bom_ldp_uri_of, uri_from_record-Names record' "bom_ldp_uri" uri named) refl

-- every address that the record names serves what its key says
pub record IsReachable (record' : Fields) (http_get_json : HttpGetJson) : Type 0 where
  pub bom_served :
      (uri : String) → Names record' "bom_ldp_uri" uri → ServesBom record' http_get_json uri
  pub invoice_served :
      (uri : String) → Names record' "invoice_uri" uri → ServesDict http_get_json uri
  pub order_served : (uri : String) → Names record' "order_uri" uri → ServesDict http_get_json uri

-- Where the claims of a record pass the check, the addresses of its BOM, its Invoice and its
-- Order, each its own or that of its locators, serve dicts, and the dict of the BOM names the
-- Invoice of the record, if both name one.
pub claims-IsReachable :
    (record' : Fields) (http_get_json : HttpGetJson) (http_get : Option HttpGetBytes)
    → assert_registry_claims_reachable record' http_get_json http_get ≡ ok tt
    → IsReachable record' http_get_json
unfolding assert_registry_claims_reachable
claims-IsReachable record' http_get_json http_get h =
    let (claim, e0, h1) = >>=-eq-ok (bom_ldp_uri_of record') _ h in
    let (_, bom_ok, h2) = >>=-eq-ok (check_bom http_get_json record' claim) _ h1 in
    let (_, inv_ok, h3) =
      >>=-eq-ok (when_given (uri_from_record record' "invoice_uri") (check_object http_get_json)) _
        h2 in
    let (_, ord_ok, h4) =
      >>=-eq-ok (when_given (uri_from_record record' "order_uri") (check_object http_get_json)) _
        h3 in
    record {
      bom_served = λ uri named.
          let e = bom_ldp_uri_of-Names record' uri named in
          let same : claim ≡ some uri = ground arith in
          check_bom-served http_get_json record' claim uri bom_ok same;
      invoice_served = λ uri named.
          given-served http_get_json (uri_from_record record' "invoice_uri") uri inv_ok
            (uri_from_record-Names record' "invoice_uri" uri named);
      order_served = λ uri named.
          given-served http_get_json (uri_from_record record' "order_uri") uri ord_ok
            (uri_from_record-Names record' "order_uri" uri named);
    }
