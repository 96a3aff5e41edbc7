-- ===== src/Cases/Batches.antt =====
-- packages/case-store/src/outbox-relay.ts: a batch that one relay has claimed is not another's.
use ehfconcept.Prelude.{compare_texts}
