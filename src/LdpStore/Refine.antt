-- ===== src/LdpStore/Refine.antt =====
-- What a resource store promises: the log of what was put, of which a name gives the last bytes put
-- under its content, and the listing each content once, the one put last in front.
use cats.Prelude.{
  String, ◌≡◌, refl, ap, ◌∙◌, inl, inr, Option, none, some, List, [], ◌∷◌, ◌==◌, arith,
  if◌then◌else◌,
}
use cats.Result.{Result, ok, err, Error, Result-cases}
use cats.Digest.{content_id_fs_key}
use cats.Digest.Codec.{Bytes}
use cats.Files.{read, write, without, names}
use cats.Files.Laws.{read-write}
use cats.LdpStore.{JsonResourceStore, put_bytes, get_bytes, list_resources}

pub data Operation : Type 0 where
  put_op : String → Bytes → Operation
  get_op : String → Operation
  list_op : Operation

pub data Answer : Type 0 where
  stored : Answer
  found : Option Bytes → Answer
  listed : List String → Answer
  refused : Error → Answer

abbrev answer_get : Result (Option Bytes) → Answer
answer_get (ok b) = found b
answer_get (err e) = refused e

abbrev after_put : JsonResourceStore → Result JsonResourceStore → Answer × JsonResourceStore
after_put s (ok s') = (stored, s')
after_put s (err e) = (refused e, s)

-- one operation of the store
unfoldable pub step : Operation → JsonResourceStore → Answer × JsonResourceStore
step (put_op content_id data_bytes) s = after_put s (put_bytes content_id data_bytes s)
step (get_op content_id) s = (answer_get (get_bytes content_id s), s)
step list_op s = (listed (list_resources s), s)

unfoldable pub run : List Operation → JsonResourceStore → List Answer
unfolding step
run [] s = []
run (op ∷ ops) s = let (answer, s') = step op s in answer ∷ run ops s'

abbrev pub Log : Type 0
Log = List (String × Bytes)

unfoldable pub latest : String → Log → Option Bytes
latest key [] = none
latest key ((k, b) ∷ log) = if k == key then some b else latest key log

unfoldable pub drop_key : String → List String → List String
drop_key key [] = []
drop_key key (k ∷ ks) = let rest = drop_key key ks in if k == key then rest else k ∷ rest

-- each key once, the one logged last in front
unfoldable pub recent : Log → List String
unfolding drop_key
recent [] = []
recent ((k, b) ∷ log) = k ∷ drop_key k (recent log)

abbrev log_put : Bytes → Log → Result String → Answer × Log
log_put data_bytes log (ok key) = (stored, (key, data_bytes) ∷ log)
log_put data_bytes log (err e) = (refused e, log)

abbrev log_get : Log → Result String → Answer
log_get log (ok key) = found (latest key log)
log_get log (err e) = refused e

-- one operation of the specification
unfoldable pub spec_step : Operation → Log → Answer × Log
unfolding latest recent
spec_step (put_op content_id data_bytes) log = log_put data_bytes log (content_id_fs_key content_id)
spec_step (get_op content_id) log = (log_get log (content_id_fs_key content_id), log)
spec_step list_op log = (listed (recent log), log)

unfoldable pub spec_run : List Operation → Log → List Answer
unfolding spec_step
spec_run [] log = []
spec_run (op ∷ ops) log = let (answer, log') = spec_step op log in answer ∷ spec_run ops log'

-- the files hold what the log says
pub record Represents (log : Log) (s : JsonResourceStore) : Type 0 where
  pub reads : (key : String) → read key s.files ≡ latest key log
  pub lists : names s.files ≡ recent log

names-without :
    (key : String) (fs : List (String × Bytes)) → names (without key fs) ≡ drop_key key (names fs)
unfolding names without drop_key
names-without key [] = refl
names-without key ((k, b) ∷ fs) = ground (arith, names-without key fs)

names-write :
    (key : String) (data_bytes : Bytes) (fs : List (String × Bytes))
    → names (write key data_bytes fs) ≡ key ∷ drop_key key (names fs)
unfolding names write
names-write key data_bytes fs = ap (λ ks. key ∷ ks) (names-without key fs)

put-Represents :
    (key : String) (data_bytes : Bytes) (log : Log) (s : JsonResourceStore)
    → Represents log s
    → Represents
        ((key, data_bytes) ∷ log)
        (record { kind = s.kind; files = write key data_bytes s.files })
unfolding latest recent
put-Represents key data_bytes log s r = record {
  reads = λ k. rw (read-write key k data_bytes s.files, r.reads k) refl;
  lists = names-write key data_bytes s.files ∙ rw r.lists refl;
}

step_refines :
    (op : Operation) (log : Log) (s : JsonResourceStore)
    → Represents log s
    → ((step op s).0 ≡ (spec_step op log).0) × Represents (spec_step op log).1 (step op s).1
unfolding step spec_step put_bytes get_bytes list_resources
step_refines (put_op content_id data_bytes) log s r =
    elim (Result-cases (content_id_fs_key content_id)) [
      | inl (key, e) ↦ rw e (refl, put-Represents key data_bytes log s r)
      | inr (error, e) ↦ rw e (refl, r)
    ]
step_refines (get_op content_id) log s r = elim (Result-cases (content_id_fs_key content_id)) [
  | inl (key, e) ↦ (rw (e, r.reads key) refl, r)
  | inr (error, e) ↦ (rw e refl, r)
]
step_refines list_op log s r = (ap listed r.lists, r)

-- Where the files of a resource store represent a log of what was put, any sequence of puts, gets
-- and listings gets the same answers from the store as from the log, which gives the last bytes
-- put under a content, whatever name of it is used, and lists each content once, the one put last
-- in front.
pub run_refines :
    (ops : List Operation) (log : Log) (s : JsonResourceStore)
    → Represents log s
    → run ops s ≡ spec_run ops log
unfolding run spec_run
run_refines [] log s r = refl
run_refines (op ∷ ops) log s r =
    let (same, r') = step_refines op log s r in
    rw (same, run_refines ops (spec_step op log).1 (step op s).1 r') refl
