-- ===== src/Examples/Powers.antt =====
-- Roundings to powers of two (include/intarith.h) at concrete inputs, those of its comments.
use replica_wbcache.Prelude.{◌+◌, ◌*◌, ◌^◌, ◌≡◌, refl, true, arith}
use replica_wbcache.Intarith.{isp2, p2align, p2phase, p2nphase, p2roundup}
use replica_wbcache.Intarith.Powers.{p2-blocks}

p2-blocks_example :
    (p2align (18 * 2 ^ 8 + 52) (2 ^ 8) ≡ 18 * 2 ^ 8)
    × (p2phase (18 * 2 ^ 8 + 52) (2 ^ 8) ≡ 52)
    × (p2nphase (18 * 2 ^ 8 + 52) (2 ^ 8) ≡ 204)
    × (p2roundup (18 * 2 ^ 8 + 52) (2 ^ 8) ≡ 19 * 2 ^ 8)
p2-blocks_example = p2-blocks 8 56 18 52 (omega arith) (omega arith) (omega arith)

p2align_run : p2align 1200 1024 ≡ 1024
unfolding p2align
p2align_run = refl

isp2_run : isp2 1024 ≡ true
unfolding isp2
isp2_run = refl
