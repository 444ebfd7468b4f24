-- ===== src/Examples/Addresses.antt =====
-- A home whose blobs are read by name, and an address whose digest the reader expects.
use cats.Prelude.{String, ◌≡◌, refl, none, some, [], ◌==◌, if◌then◌else◌}
use cats.Result.{Result, ok, err, key_error}
use cats.Text.{
  is_empty, strip, lower, lower_char, lstrip_by, rstrip_by, cons_unless, is_space, starts_with,
}
use cats.Digest.Codec.{Bytes}
use cats.Hashlink.{is_hl}
use cats.ContentRef.{is_http_uri}
use cats.Refs.{non_empty}
use cats.LdpStore.{invoices, orders}
use cats.AddressStore.{
  Home, verified, check_digest, local_or_http, local_ldp_bytes, resolve_expect_digest, cat_http,
  cat_resolved, cat_bytes,
}
use cats.AddressStore.Verified.{Promised, by_address, cat_bytes-digest}
use cats.AddressStore.Stored.{cat_bytes-put}
use cats.Examples.Data.{
  digest_b, name_b, cat, digest_of_size, digest_of_size-valid, recognised_b, read_b,
}
use cats.Examples.Stores.{one_blob, two_blobs, second_put, located}

abbrev pub home_b : Home
home_b = record {
  store = two_blobs;
  index = located;
  invoices = record { kind = invoices; files = [] };
  orders = record { kind = orders; files = [] };
}

unfoldable pub unreachable : String → Result Bytes
unreachable uri = err key_error

cat_bytes-put_example :
    cat_bytes digest_of_size unreachable (some home_b) digest_b (some "x") ≡ ok cat
unfolding digest_of_size
cat_bytes-put_example =
    cat_bytes-put digest_of_size digest_of_size-valid unreachable cat one_blob name_b home_b
      digest_b (some "x") second_put read_b.0

abbrev address_b : String
address_b = "http://node/data"

unfoldable at_address : String → Result Bytes
at_address uri = if uri == address_b then ok cat else err key_error

expected_b : resolve_expect_digest none address_b (some digest_b) ≡ ok (some digest_b)
unfolding resolve_expect_digest non_empty is_empty
expected_b = rw (recognised_b.0, read_b.0) refl

known_b : Promised none (some digest_b) address_b digest_b
unfolding is_hl is_http_uri starts_with lower lower_char strip lstrip_by rstrip_by cons_unless
    is_space is_empty
known_b = by_address address_b digest_b refl refl expected_b refl

address_read : cat_bytes digest_of_size at_address none address_b (some digest_b) ≡ ok cat
unfolding cat_bytes cat_resolved cat_http check_digest verified local_or_http local_ldp_bytes
    at_address non_empty is_hl is_http_uri starts_with lower lower_char strip lstrip_by rstrip_by
    cons_unless is_space is_empty digest_of_size
address_read = rw expected_b refl

cat_bytes-digest_example : digest_of_size cat ≡ digest_b
cat_bytes-digest_example =
    cat_bytes-digest digest_of_size at_address none address_b digest_b (some digest_b) cat known_b
      address_read
