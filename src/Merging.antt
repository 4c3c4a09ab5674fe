-- ===== src/Merging.antt =====
-- The merge of what several providers report of one contract, backend/data/reconciliation.py: identities,
-- divergences, and the preview of `reconcile`. The values of the fields and Python's floats are
-- parameters, as is the checksum of an identity. `consensus` is not modelled.
mod Observations
mod Preview
mod Fields
mod Precedence
mod Tests
