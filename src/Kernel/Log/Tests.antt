-- ===== src/Kernel/Log/Tests.antt =====
-- Lines of the log.
use h3os.Base.{arith, List, [], ◌∷◌, ◌++◌}
use h3os.Base.Int.{negsuc}
use h3os.Kernel.Log.{Log, klog_init, ring_puts}
use h3os.Kernel.Log.Ring.{Holds, klog_init-Holds, ring_puts-Holds}
use h3os.Kernel.Log.Directives.{Part, byte, digit, signed, hex64}

abbrev fresh : Log
fresh = record { log_ring = λ i. 0; log_pos = 5; min_level = 1; sent = [] }

-- `id=%d %llx %02x` of -7 and a long value, the last directive without a value.
abbrev message : List Part
message =
    byte b'i'
    ∷ byte b'd'
    ∷ byte b'='
    ∷ signed (negsuc 6)
    ∷ byte b' '
    ∷ hex64 0xFFFFFFFF00
    ∷ byte b' '
    ∷ digit b'0'
    ∷ byte b'2'
    ∷ byte b'x'
    ∷ []

ring_puts-Holds_example :
    Holds (ring_puts (klog_init fresh) (b'a' ∷ b'b' ∷ [])) ([] ++ b'a' ∷ b'b' ∷ [])
ring_puts-Holds_example =
    ring_puts-Holds (klog_init fresh) [] (b'a' ∷ b'b' ∷ []) (klog_init-Holds fresh) (omega arith)
