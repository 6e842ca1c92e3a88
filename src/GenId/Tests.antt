-- ===== src/GenId/Tests.antt =====
-- Runs of src/genid.c, and the theorem on it for concrete calls.
use redstore.Base.{◌≡◌, refl, ◌≢◌, arith, codes}
use redstore.GenId.{id_of, nth_id, genid_distinct}

id_test : id_of 0x2a ≡ codes "adf2-7d4c"
unfolding id_of
id_test = refl

genid_distinct_example : nth_id 7 1000 0 ≢ nth_id 7 1000 1
genid_distinct_example =
    genid_distinct 7 1000 0 1 (omega arith) (omega arith) (omega arith) (omega arith)
