-- ===== src/Capacity/Bounds.antt =====
-- What an accepted request is sure of.
use kitdev_sandboxes.Base.{
  ℕ, ◌+◌, ◌-◌, ◌*◌, ◌≤◌, ◌≡◌, not, ◌||◌, some, ltb, ◌==◌, arith, ap, subst, ◌∙◌, String,
  Option-cases, ==_iff, inl, inr,
}
use kitdev_sandboxes.Base.Errors.{
  ok, value_error, ◌>>◌, raise_if, >>=-eq-ok, raise_if-eq-ok, ok_inj, not-eq-false,
}
use kitdev_sandboxes.Base.Strings.{codes}
use kitdev_sandboxes.Checks.Unquote.{within}
use kitdev_sandboxes.Capacity.Pool.{
  Codes, Values, get_value, fact_of, parse_meminfo, check_capacity, validate_capacity,
  required_hugepages_2m, capacity,
}

-- A product with a bounded factor.
times_bound : (a b c m : ℕ) → a ≤ c → b ≤ m → a * b ≤ c * m
times_bound a b c m h k = grind arith

-- A pool has room for every sandbox and for the headroom, and its pages of 2 MiB hold it with less
-- than one page to spare; there are at most 4,325,376 of them.
required_hugepages_2m_bounds :
    (sandbox_mib concurrent headroom_mib pool_mib pages : ℕ)
    → required_hugepages_2m sandbox_mib concurrent headroom_mib ≡ ok (pool_mib, pages)
    → (sandbox_mib * concurrent + headroom_mib ≤ pool_mib)
      × (pool_mib ≤ pages * 2)
      × (pages * 2 ≤ pool_mib + 1)
      × (pages ≤ 4325376)
unfolding required_hugepages_2m
required_hugepages_2m_bounds s c h p n e =
    (ground arith, ground arith, ground arith, ground (arith, times_bound s c 262144 32))

fact_of-eq-ok :
    (k : String) (d : Values) {n : ℕ} → fact_of k d ≡ ok n → get_value (codes k) d ≡ some n
fact_of-eq-ok k d e = elim (Option-cases (get_value (codes k) d)) [
  | inl gone ↦ cc (rw (gone, fact_of) at e)
  | inr (n, here) ↦ here ∙ ap (λ x. some x) (ok_inj (rw (here, fact_of) at e))
]

-- The request fits the memory that the values show.
abbrev pub Fits : Values → ℕ → ℕ → ℕ → Type 0
Fits values pages max_ram_percent reserve_mb =
    (total : ℕ) × (available : ℕ) × (pool : ℕ) × (get_value (codes "MemTotal") values ≡ some total)
    × (get_value (codes "MemAvailable") values ≡ some available)
    × (get_value (codes "HugePages_Total") values ≡ some pool)
    × (get_value (codes "Hugepagesize") values ≡ some 2048)
    × (pages * 2048 * 100 ≤ total * max_ram_percent)
    × ((pages - pool) * 2048 + reserve_mb * 1024 ≤ available)

check_capacity-Fits :
    (values : Values) (total available pool size pages max_ram_percent reserve_mb : ℕ)
    → get_value (codes "MemTotal") values ≡ some total
    → get_value (codes "MemAvailable") values ≡ some available
    → get_value (codes "HugePages_Total") values ≡ some pool
    → get_value (codes "Hugepagesize") values ≡ some size
    → check_capacity total available pool size pages max_ram_percent reserve_mb ≡ ok tt
    → Fits values pages max_ram_percent reserve_mb
unfolding check_capacity
check_capacity-Fits values total available pool size pages percent reserve t a p z e =
    let (wrong, e1) =
      raise_if-eq-ok (not (size == 2048))
        (value_error "required 2 MiB hugepage memory facts unavailable") _ e in
    let two : size ≡ 2048 = (==_iff size 2048).0 (not-eq-false _ wrong) in
    let e2 =
      subst
        (λ n.
          (raise_if (ltb (total * percent) (pages * n * 100))
              (value_error "requested hugepage pool exceeds total-RAM budget")
            >> raise_if (ltb available ((pages - pool) * n + reserve * 1024))
                (value_error "insufficient currently available memory for hugepage allocation"))
          ≡ ok tt)
        two e1 in
    (total, available, pool, t, a, p, z ∙ ap (λ n. some n) two, ground arith, ground arith)

validate_capacity-Fits :
    (values : Values) (pages max_ram_percent reserve_mb : ℕ)
    → validate_capacity values pages max_ram_percent reserve_mb ≡ ok tt
    → Fits values pages max_ram_percent reserve_mb
unfolding validate_capacity
validate_capacity-Fits values pages percent reserve e =
    let (total, t, e1) = >>=-eq-ok (fact_of "MemTotal" values) _ e in
    let (available, a, e2) = >>=-eq-ok (fact_of "MemAvailable" values) _ e1 in
    let (pool, p, e3) = >>=-eq-ok (fact_of "HugePages_Total" values) _ e2 in
    let (size, z, e4) = >>=-eq-ok (fact_of "Hugepagesize" values) _ e3 in
    check_capacity-Fits values total available pool size pages percent reserve
      (fact_of-eq-ok "MemTotal" values t) (fact_of-eq-ok "MemAvailable" values a)
      (fact_of-eq-ok "HugePages_Total" values p) (fact_of-eq-ok "Hugepagesize" values z) e4

-- A request that `main` accepts fits the memory that the text shows: the pool's pages take at most
-- the given percentage, which is at most 50, of all memory, and the pages that are still to be
-- allocated leave the reserve, which is at least 4096 MiB, of the memory available. The pool has room
-- for every sandbox and for the headroom, and the pages hold it with less than one page to spare.
pub capacity-Fits :
    (meminfo : Codes)
    (sandbox_mib concurrent headroom_mib max_ram_percent reserve_mb pool_mib pages : ℕ)
    → capacity meminfo sandbox_mib concurrent headroom_mib max_ram_percent reserve_mb
      ≡ ok (pool_mib, pages)
    → Fits (parse_meminfo meminfo) pages max_ram_percent reserve_mb
      × (max_ram_percent ≤ 50)
      × (4096 ≤ reserve_mb)
      × (sandbox_mib * concurrent + headroom_mib ≤ pool_mib)
      × (pool_mib ≤ pages * 2)
      × (pages * 2 ≤ pool_mib + 1)
unfolding capacity
capacity-Fits meminfo s c h percent reserve pool_mib pages e =
    let (policy, e1) =
      raise_if-eq-ok (not (within 1 50 percent) || ltb reserve 4096)
        (value_error "invalid capacity policy") _ e in
    let (pool, required, e2) = >>=-eq-ok (required_hugepages_2m s c h) _ e1 in
    let (_, fits, e3) =
      >>=-eq-ok (validate_capacity (parse_meminfo meminfo) pool.1 percent reserve) _ e2 in
    let same : pool ≡ (pool_mib, pages) = ok_inj e3 in
    let bounds =
      required_hugepages_2m_bounds s c h pool_mib pages (required ∙ ap (λ x. ok x) same) in
    (
      subst (λ n. Fits (parse_meminfo meminfo) n percent reserve) (ap (λ x. x.1) same)
          (validate_capacity-Fits (parse_meminfo meminfo) pool.1 percent reserve fits),
      ground arith,
      ground arith,
      bounds.0,
      bounds.1,
      bounds.2,
    )
