-- ===== src/Registry/Index.antt =====
-- What the registry answers after a record is put, and that its indexes cover its records.
pub mod Ids
use mathlib.Core.Option
use cats.Prelude.{
  String, ◌≡◌, refl, sym, ap, ◌∙◌, ◌⊎◌, inl, inr, Bool, true, false, Option, none, some, List, [],
  ◌∷◌, ◌==◌, eq_iff, eq_refl, arith, if◌then◌else◌, Bool-cases,
}
use cats.Result.{Result, ok, err, ◌>>=◌, Result-cases}
use cats.TextList.{elem}
use cats.Digest.{content_id_fs_key}
use cats.Json.{Fields}
use cats.Locators.Index.{added}
use cats.Files.{read, write}
use cats.Files.Laws.{read-write}
use cats.Registry.{
  BomRegistry, normalize_content_id, record_bom_id, record_order_id, record_data_id, read_list,
  append_index, stored_record, put, get_record, lookup_bom, lookup_by_order, sole,
  resolve_unique_bom,
}
use Ids.{content_id_fs_key-normalize}

-- the ids of a record, each with its canonical form and its file key
pub record Keyed (id : Option String) : Type 0 where
  pub canonical : String
  pub key : String
  pub normal : normalize_content_id (Option.get_or id "") ≡ ok canonical
  pub keyed : content_id_fs_key canonical ≡ ok key

pub record Keys (record' : Fields) : Type 0 where
  pub bom : Keyed (record_bom_id record')
  pub order : Keyed (record_order_id record')
  pub data_keys : Keyed (record_data_id record')

module _ (record' : Fields) (ks : Keys record') where
  -- the registry that `put` makes of `r`
  abbrev pub after : BomRegistry → BomRegistry
  after r = record {
    boms =
        write ks.bom.key
          (stored_record record' ks.bom.canonical ks.order.canonical ks.data_keys.canonical) r.boms;
    by_data = append_index ks.data_keys.key ks.bom.canonical r.by_data;
    by_order = append_index ks.order.key ks.bom.canonical r.by_order;
  }

  pub put-after : (r : BomRegistry) → put record' r ≡ ok (after r)
  unfolding put
  put-after r =
      rw
        (
          ks.bom.normal, ks.order.normal, ks.data_keys.normal, ks.bom.keyed, ks.data_keys.keyed,
          ks.order.keyed,
        )
        refl

Keyed-of_ok :
    (id : Option String) (n : String) → normalize_content_id (Option.get_or id "") ≡ ok n → Keyed id
Keyed-of_ok id n h =
    let (k, keyed, _) = content_id_fs_key-normalize (Option.get_or id "") n h in
    record { canonical = n; key = k; normal = h; keyed = keyed }

-- `put` succeeds only for a record whose three ids are content ids.
pub Keys-of_put : (record' : Fields) (r r' : BomRegistry) → put record' r ≡ ok r' → Keys record'
unfolding put
Keys-of_put record' r r' h =
    elim (Result-cases (normalize_content_id (Option.get_or (record_bom_id record') ""))) [
      | inl (b, eb) ↦
          elim (Result-cases (normalize_content_id (Option.get_or (record_order_id record') ""))) [
            | inl (o, eo) ↦
                elim (Result-cases
                  (normalize_content_id (Option.get_or (record_data_id record') ""))) [
                    | inl (d, ed) ↦ record {
                      bom = Keyed-of_ok (record_bom_id record') b eb;
                      order = Keyed-of_ok (record_order_id record') o eo;
                      data_keys = Keyed-of_ok (record_data_id record') d ed;
                    }
                    | inr (x, ed) ↦ absurd (ground arith)
                  ]
            | inr (x, eo) ↦ absurd (ground arith)
          ]
      | inr (x, eb) ↦ absurd (ground arith)
    ]

pub read_list-append_index :
    (k j b : String) (files : List (String × List String))
    → read_list j (append_index k b files)
      ≡ (if k == j then added b (read_list j files) else read_list j files)
unfolding read_list append_index
read_list-append_index k j b files =
    ground (arith, read-write k j (b ∷ read_list k files) files, eq_iff k j)

module _ (record' : Fields) (ks : Keys record') (r r' : BomRegistry)
    (done : put record' r ≡ ok r') where
  pub put-eq-after : r' ≡ after record' ks r
  put-eq-after = ground (arith, put-after record' ks r)

  -- After a successful `put`, the record is found under each name of its BOM, and other BOMs keep
  -- theirs.
  pub get_record-put :
      (x j : String) (old : Option Fields)
      → content_id_fs_key x ≡ ok j
      → get_record x r ≡ ok old
      → get_record x r'
        ≡ ok (
            if ks.bom.key == j
            then some
                (stored_record record' ks.bom.canonical ks.order.canonical ks.data_keys.canonical)
            else old)
  unfolding get_record
  get_record-put x j old key was = rw (put-eq-after, key, read-write) (ground arith)

  -- After a successful `put`, the BOM stands in front of the list of its data, where it was not
  -- listed yet; the lists of other data stay.
  pub lookup_bom-put :
      (x j : String) (l : List String)
      → content_id_fs_key x ≡ ok j
      → lookup_bom x r ≡ ok l
      → lookup_bom x r' ≡ ok (if ks.data_keys.key == j then added ks.bom.canonical l else l)
  unfolding lookup_bom
  lookup_bom-put x j l key was = rw (put-eq-after, key, read_list-append_index) (ground arith)

  -- After a successful `put`, the BOM stands in front of the list of its Order, where it was not
  -- listed yet; the lists of other Orders stay.
  pub lookup_by_order-put :
      (x j : String) (l : List String)
      → content_id_fs_key x ≡ ok j
      → lookup_by_order x r ≡ ok l
      → lookup_by_order x r' ≡ ok (if ks.order.key == j then added ks.bom.canonical l else l)
  unfolding lookup_by_order
  lookup_by_order-put x j l key was = rw (put-eq-after, key, read_list-append_index) (ground arith)
