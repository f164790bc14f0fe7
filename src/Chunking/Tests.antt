-- ===== src/Chunking/Tests.antt =====
-- Runs of backend/app/ai/chunking.py.
use diagnosis_system.Prelude.{codes, arith, length, Text}
use diagnosis_system.Chunking.{chunk_text, normalize_text}
use diagnosis_system.Chunking.Chunks.{AreChunks, CoveredTo}
use diagnosis_system.Chunking.Cover.{Returns, chunk_text-Returns}

abbrev note : Text
note = codes "The watchdog fired.  It resets the core."

chunk_text-Returns_example :
    Returns
      (λ r. AreChunks 20 r × CoveredTo (normalize_text note) (length (normalize_text note)) r)
      (chunk_text 20 5 note)
chunk_text-Returns_example = chunk_text-Returns 20 5 note (ground arith)
