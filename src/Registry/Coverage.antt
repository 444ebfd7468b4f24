-- ===== src/Registry/Coverage.antt =====
-- Every record of the registry is listed under its data and under its Order.
use cats.Prelude.{
  String, ◌≡◌, refl, sym, ◌∙◌, inl, inr, true, some, List, ◌==◌, eq_iff, eq_refl, arith,
  if◌then◌else◌, Bool-cases,
}
use cats.Result.{ok}
use cats.TextList.{elem}
use cats.Digest.{content_id_fs_key}
use cats.Json.{Fields, str, text, truthy, ◌or◌}
use cats.Json.Laws.{get-set}
use cats.Locators.Index.{added}
use cats.Files.{read}
use cats.Files.Laws.{read-write}
use cats.Registry.{
  BomRegistry, normalize_content_id, record_bom_id, record_order_id, record_data_id, read_list,
  append_index, stored_record, put,
}
use cats.Registry.Index.{Keys, Keys-of_put, after, put-eq-after, read_list-append_index}
use cats.Registry.Index.Ids.{strip-normalize, is_empty-normalize}

text-normal : (x n : String) → normalize_content_id x ≡ ok n → text (str n) ≡ some n
unfolding text
text-normal x n h = rw (strip-normalize x n h, is_empty-normalize x n h) refl

module _ (record' : Fields) (b o d : String) where
  record_bom_id-stored :
      (x : String)
      → normalize_content_id x ≡ ok b
      → record_bom_id (stored_record record' b o d) ≡ some b
  unfolding record_bom_id stored_record ◌or◌ truthy
  record_bom_id-stored x h =
      rw
        (
          get-set "data" "content_id",
          get-set "order" "content_id",
          get-set "content_id" "content_id",
          is_empty-normalize x b h,
        )
        (text-normal x b h)

  record_order_id-stored :
      (x : String)
      → normalize_content_id x ≡ ok o
      → record_order_id (stored_record record' b o d) ≡ some o
  unfolding record_order_id stored_record ◌or◌ truthy
  record_order_id-stored x h =
      rw (get-set "data" "order", get-set "order" "order", is_empty-normalize x o h)
        (text-normal x o h)

  record_data_id-stored :
      (x : String)
      → normalize_content_id x ≡ ok d
      → record_data_id (stored_record record' b o d) ≡ some d
  unfolding record_data_id stored_record ◌or◌ truthy
  record_data_id-stored x h =
      rw (get-set "data" "data", is_empty-normalize x d h) (text-normal x d h)

-- The record under the key `k` names a BOM with that key, and the lists of its data and of its Order
-- hold the BOM.
pub record Listed (r : BomRegistry) (k : String) (record' : Fields) : Type 0 where
  pub bom : String
  pub order : String
  pub data_id : String
  pub order_key : String
  pub data_key : String
  pub has_bom : record_bom_id record' ≡ some bom
  pub has_order : record_order_id record' ≡ some order
  pub has_data : record_data_id record' ≡ some data_id
  pub bom_keyed : content_id_fs_key bom ≡ ok k
  pub order_keyed : content_id_fs_key order ≡ ok order_key
  pub data_keyed : content_id_fs_key data_id ≡ ok data_key
  pub by_order : elem bom (read_list order_key r.by_order) ≡ true
  pub by_data : elem bom (read_list data_key r.by_data) ≡ true

abbrev pub IsCovered : BomRegistry → Type 0
IsCovered r = (k : String) (record' : Fields) → read k r.boms ≡ some record' → Listed r k record'

elem-added : (b : String) (l : List String) → elem b (added b l) ≡ true
unfolding elem
elem-added b l = ground (arith, eq_refl b)

-- a list only grows
elem-append_index :
    (c k b j : String) (files : List (String × List String))
    → elem c (read_list j files) ≡ true
    → elem c (read_list j (append_index k b files)) ≡ true
unfolding elem
elem-append_index c k b j files h = rw (read_list-append_index k j b files) (ground arith)

elem-append_index_self :
    (k b : String) (files : List (String × List String))
    → elem b (read_list k (append_index k b files)) ≡ true
elem-append_index_self k b files =
    rw (read_list-append_index k k b files, eq_refl k) (elem-added b (read_list k files))

Listed-new :
    (record' : Fields) (ks : Keys record') (r : BomRegistry)
    → Listed
        (after record' ks r)
        ks.bom.key
        (stored_record record' ks.bom.canonical ks.order.canonical ks.data_keys.canonical)
Listed-new record' ks r = record {
  bom = ks.bom.canonical;
  order = ks.order.canonical;
  data_id = ks.data_keys.canonical;
  order_key = ks.order.key;
  data_key = ks.data_keys.key;
  has_bom = record_bom_id-stored record' _ _ _ _ ks.bom.normal;
  has_order = record_order_id-stored record' _ _ _ _ ks.order.normal;
  has_data = record_data_id-stored record' _ _ _ _ ks.data_keys.normal;
  bom_keyed = ks.bom.keyed;
  order_keyed = ks.order.keyed;
  data_keyed = ks.data_keys.keyed;
  by_order = elem-append_index_self ks.order.key ks.bom.canonical r.by_order;
  by_data = elem-append_index_self ks.data_keys.key ks.bom.canonical r.by_data;
}

Listed-old :
    (record' : Fields) (ks : Keys record') (r : BomRegistry) (k : String) (other : Fields)
    → Listed r k other
    → Listed (after record' ks r) k other
Listed-old record' ks r k other l = record {
  bom = l.bom;
  order = l.order;
  data_id = l.data_id;
  order_key = l.order_key;
  data_key = l.data_key;
  has_bom = l.has_bom;
  has_order = l.has_order;
  has_data = l.has_data;
  bom_keyed = l.bom_keyed;
  order_keyed = l.order_keyed;
  data_keyed = l.data_keyed;
  by_order =
      elem-append_index l.bom ks.order.key ks.bom.canonical l.order_key r.by_order l.by_order;
  by_data =
      elem-append_index l.bom ks.data_keys.key ks.bom.canonical l.data_key r.by_data l.by_data;
}

-- A successful `put` keeps every record listed under its data and its Order.
pub put-IsCovered :
    (record' : Fields) (r r' : BomRegistry) → IsCovered r → put record' r ≡ ok r' → IsCovered r'
put-IsCovered record' r r' covered done k found at =
    let ks = Keys-of_put record' r r' done in
    let same = put-eq-after record' ks r r' done in
    let new = stored_record record' ks.bom.canonical ks.order.canonical ks.data_keys.canonical in
    let split : (if ks.bom.key == k then some new else read k r.boms) ≡ some found =
      sym (read-write ks.bom.key k new r.boms) ∙ rw same at at in
    rw same (elim (Bool-cases (ks.bom.key == k)) [
      | inl here ↦
          let e : ks.bom.key ≡ k = (eq_iff ks.bom.key k).0 here in
          let stored : found ≡ new = ground arith in rw (stored, ← e) (Listed-new record' ks r)
      | inr other ↦ Listed-old record' ks r k found (covered k found (ground arith))
    ])
