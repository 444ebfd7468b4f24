-- ===== src/Examples/Readers.antt =====
-- An access control document without named readers, which everyone reads.
