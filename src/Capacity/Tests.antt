-- ===== src/Capacity/Tests.antt =====
-- The theorems at a machine with 64 GiB, and tests.
use kitdev_sandboxes.Base.{arith, ◌+◌, ◌*◌, ◌≤◌, ◌≡◌, refl}
use kitdev_sandboxes.Base.Errors.{ok}
use kitdev_sandboxes.Base.Strings.{codes}
use kitdev_sandboxes.Checks.Patterns.{codes_eq}
use kitdev_sandboxes.Capacity.Pool.{Codes, capacity, parse_meminfo}
use kitdev_sandboxes.Capacity.Accepted.{capacity-accepts}
use kitdev_sandboxes.Capacity.Bounds.{Fits, capacity-Fits}

abbrev meminfo : Codes
meminfo = codes (
    "MemTotal: 67108864 kB\nMemAvailable: 60000000 kB\nHugePages_Total: 0\nHugepagesize: 2048 kB\n")

demo_capacity : capacity meminfo 1024 4 2048 50 4096 ≡ ok (6144, 3072)
unfolding capacity codes_eq
demo_capacity = refl

capacity-Fits_example :
    Fits (parse_meminfo meminfo) 3072 50 4096
    × (50 ≤ 50)
    × (4096 ≤ 4096)
    × (1024 * 4 + 2048 ≤ 6144)
    × (6144 ≤ 3072 * 2)
    × (3072 * 2 ≤ 6144 + 1)
capacity-Fits_example = capacity-Fits meminfo 1024 4 2048 50 4096 6144 3072 demo_capacity

capacity-accepts_example : capacity meminfo 1024 4 2048 50 4096 ≡ ok (6144, 3072)
capacity-accepts_example =
    capacity-accepts meminfo 1024 4 2048 50 4096 (omega arith) (omega arith) (omega arith)
      (omega arith) (omega arith) (omega arith) (omega arith) (omega arith)
      (capacity-Fits meminfo 1024 4 2048 50 4096 6144 3072 demo_capacity).0
