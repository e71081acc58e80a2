-- ===== src/Capacity/Accepted.antt =====
-- Which requests are accepted.
use kitdev_sandboxes.Base.{
  ℕ, ◌+◌, ◌-◌, ◌*◌, ◌/◌, ◌≤◌, ◌≡◌, not, ◌||◌, some, ltb, arith, String, refl, false,
}
use kitdev_sandboxes.Base.Errors.{ok, ◌>>=◌}
use kitdev_sandboxes.Base.Strings.{codes}
use kitdev_sandboxes.Checks.Unquote.{within}
use kitdev_sandboxes.Capacity.Pool.{
  Codes, Values, Checked, get_value, fact_of, parse_meminfo, check_capacity, validate_capacity,
  required_hugepages_2m, capacity,
}
use kitdev_sandboxes.Capacity.Bounds.{Fits}

fact_of-found :
    (k : String) (d : Values) (n : ℕ) → get_value (codes k) d ≡ some n → fact_of k d ≡ ok n
fact_of-found k d n here = rw (here, fact_of) refl

check_capacity-accepts :
    (total available pool pages percent reserve : ℕ)
    → pages * 2048 * 100 ≤ total * percent
    → (pages - pool) * 2048 + reserve * 1024 ≤ available
    → check_capacity total available pool 2048 pages percent reserve ≡ ok tt
unfolding check_capacity
check_capacity-accepts total available pool pages percent reserve ram room =
    let small : ltb (total * percent) (pages * 2048 * 100) ≡ false = ground arith in
    let fits : ltb available ((pages - pool) * 2048 + reserve * 1024) ≡ false = ground arith in
    rw (small, fits) refl

-- A chain whose first call returns.
>>=-ok :
    {V W : Type 0} (call : Checked V) (next : V → Checked W) {v : V} {w : W}
    → call ≡ ok v
    → next v ≡ ok w
    → (call >>= next) ≡ ok w
>>=-ok call next returned rest = rw returned rest

validate_capacity-accepts :
    (values : Values) (pages max_ram_percent reserve_mb : ℕ)
    → Fits values pages max_ram_percent reserve_mb
    → validate_capacity values pages max_ram_percent reserve_mb ≡ ok tt
unfolding validate_capacity
validate_capacity-accepts values pages percent reserve
      (total, available, pool, t, a, p, z, ram, room) =
    >>=-ok (fact_of "MemTotal" values) _ (fact_of-found "MemTotal" values total t) (
      >>=-ok (fact_of "MemAvailable" values) _ (fact_of-found "MemAvailable" values available a) (
        >>=-ok (fact_of "HugePages_Total" values) _ (fact_of-found "HugePages_Total" values pool p)
          (>>=-ok (fact_of "Hugepagesize" values) _ (fact_of-found "Hugepagesize" values 2048 z)
            (check_capacity-accepts total available pool pages percent reserve ram room))))

-- A request within the ranges of the policy, whose pages fit the memory that the text shows, is
-- accepted, with a pool of the sandboxes and the headroom.
pub capacity-accepts :
    (meminfo : Codes) (sandbox_mib concurrent headroom_mib max_ram_percent reserve_mb : ℕ)
    → 512 ≤ sandbox_mib
    → 1 ≤ concurrent
    → concurrent ≤ 32
    → sandbox_mib ≤ headroom_mib
    → headroom_mib ≤ 262144
    → 1 ≤ max_ram_percent
    → max_ram_percent ≤ 50
    → 4096 ≤ reserve_mb
    → Fits
        (parse_meminfo meminfo)
        ((sandbox_mib * concurrent + headroom_mib + 1) / 2)
        max_ram_percent
        reserve_mb
    → capacity meminfo sandbox_mib concurrent headroom_mib max_ram_percent reserve_mb
      ≡ ok (
        sandbox_mib * concurrent + headroom_mib,
        (sandbox_mib * concurrent + headroom_mib + 1) / 2,
      )
unfolding capacity required_hugepages_2m
capacity-accepts meminfo s c h percent reserve low one most head top some_percent half kept fits =
    let policy : (not (within 1 50 percent) || ltb reserve 4096) ≡ false = ground arith in
    let sandbox : not (within 512 262144 s) ≡ false = ground arith in
    let count : not (within 1 32 c) ≡ false = ground arith in
    let headroom : not (within s 262144 h) ≡ false = ground arith in
    rw
      (
        policy,
        sandbox,
        count,
        headroom,
        validate_capacity-accepts (parse_meminfo meminfo) ((s * c + h + 1) / 2) percent reserve
            fits,
        capacity,
        required_hugepages_2m,
      )
      refl
