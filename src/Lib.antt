-- ===== src/Lib.antt =====
-- A model of the content-addressed core of CATs: digests and their names, the stores of a node, the
-- registry of executed BOMs, and the checks that tie the documents of a run together.
--
-- Digest models cats/network/cas/digest.py; Digest/Codec stands for Python's `bytes.hex` and url-safe
-- base64. CasStore models cas/store.py: a store is a list of files, the newest first, and `put` and
-- `get` take and return it. Hashlink models cas/hashlink.py, Locators the index of cas/locators.py.
-- ContentRef (equality ids, addresses, the intake of references) and Refs (the `*_uri` fields of a
-- document) are the two halves of cas/content_ref.py; ContentRef/Url stands for the part of `urlparse`
-- that it uses. Stages models cas/invoice_stages.py. Registry, with Registry/Project
-- (`project_record`) and Registry/Build (`build_record`), models registry/store.py: the registry is
-- the record files and the two reverse indexes. Lineage models registry/lineage.py, ExecutionBind
-- registry/execution_bind.py, Envelope the document of feedback/envelope.py, Projection
-- registry/projection.py, ManifestEquiv cas/manifest_equiv.py, Reachability
-- registry/reachability.py, Handoff registry/handoff.py, and Parity, with Parity/Index,
-- registry/parity.py. ContentEquiv, with ContentEquiv/Documents, models registry/content_equiv.py,
-- AsExecuted registry/as_executed.py, Flatten cas/flatten_refs.py, Manifest cas/manifest.py, and
-- LdpStore ldp/resource_store.py and ldp/bom_store.py. Routes holds the responses, the headers of
-- ldp/headers.py and cas/routes.py, Routes/Registry registry/routes.py and Routes/Ldp ldp/routes.py.
-- NamedBinds models named_binds.py, BomRead bom/read.py, AddressStore, with AddressStore/Get,
-- address_store/store.py, and Access the document of ldp/wac.py. All of these paths are under
-- cats/network; JobResult models cats/executor/result.py. The other child modules state and prove
-- properties, and Examples applies the theorems.
--
-- A digest is the identity of bytes; its `ni:` name is what documents say. Stores, index and registry
-- key their files by `content_id_fs_key`, and the routes serve them under every name. The registry
-- lists a BOM under its data and its Order; the checks read the registry, the locator index and
-- documents fetched over HTTP, and raise where these do not fit together. A manifest names the files of
-- a directory by their blobs; a job result copies the blobs that a run cites. The address store reads
-- an id from the blobs of the node, the locators of the index or an address, and checks the digest.
--
-- Prelude, Result, Text, Json, Files and TextList hold what the parts share. An exception is a value
-- of `Result` without its message. A dict is a list of fields in the order of their insertion; numbers
-- in documents are natural. A text is a native string, and only ASCII letters have a lower case. A
-- file that holds JSON is kept as the document, but for the Orders and Invoices of LdpStore, which are
-- bytes. Every function ends by recursion on its input, so there is no fuel; the depth of `flatten`
-- is the code's own `max_depth`, of which a negative one does what zero does. Of the path patterns of
-- the routes only that of the CAS is modelled, whose names are one segment. Functions of other code
-- are parameters: sha-256, the check of a proof, the content mesh, the HTTP fetches, the codecs of JSON
-- and UTF-8, and the resolution of paths. `cats_home` is an optional
-- locator index that a call takes and returns, and `base_url` is the caller's, or the Node's own
-- where the caller gives none.
--
-- Not modelled: cryptographic signatures and the file system below the stores (both are other code),
-- the clients of Solid servers and of other nodes, notifications, the SBOM and graph exports, and the executor, which drives external programs.
pub mod Prelude
pub mod Result
pub mod Text
pub mod Digest
pub mod Json
pub mod Files
pub mod TextList
pub mod CasStore
pub mod Hashlink
pub mod Locators
pub mod ContentRef
pub mod Refs
pub mod Stages
pub mod Registry
pub mod Lineage
pub mod ExecutionBind
pub mod Envelope
pub mod Projection
pub mod ManifestEquiv
pub mod Reachability
pub mod Handoff
pub mod Parity
pub mod Flatten
pub mod ContentEquiv
pub mod AsExecuted
pub mod LdpStore
pub mod Manifest
pub mod JobResult
pub mod NamedBinds
pub mod BomRead
pub mod AddressStore
pub mod Access
pub mod Routes
pub mod Examples
