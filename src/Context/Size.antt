-- ===== src/Context/Size.antt =====
-- The size of the disk cache, in the 32 bits of an int.
use seaturtle.Common.{ℕ, ◌*◌, ◌%◌, ◌^◌, ◌<◌, ◌≡◌, ◌↔◌, arith}
use seaturtle.Settings.{AllSettings}
use seaturtle.Context.Build.{disk_cache_size}

exact :
    (mb : ℕ)
    → mb < 2048
    → (mb * 1024 * 1024 % 2 ^ 32 ≡ mb * 1048576) × (mb * 1024 * 1024 % 2 ^ 32 < 2 ^ 31)
exact mb h = omega arith

below :
    (mb : ℕ)
    → mb * 1024 * 1024 % 2 ^ 32 ≡ mb * 1048576
    → mb * 1024 * 1024 % 2 ^ 32 < 2 ^ 31
    → mb < 2048
below mb h k = omega arith

-- The size that is passed to the disk cache is the number of bytes in the megabytes of the settings,
-- and not negative as an int, exactly if the settings say less than 2048 megabytes.
disk_cache_size-exact_iff :
    (s : AllSettings)
    → ((disk_cache_size s ≡ s.state.disk_cache_size_mb * 1048576) × (disk_cache_size s < 2 ^ 31))
      ↔ (s.state.disk_cache_size_mb < 2048)
unfolding disk_cache_size
disk_cache_size-exact_iff s =
    (λ h. below s.state.disk_cache_size_mb h.0 h.1, λ h. exact s.state.disk_cache_size_mb h)
