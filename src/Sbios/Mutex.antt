-- ===== src/Sbios/Mutex.antt =====
-- TGE/sbios/mutex.c: the lock that the SBIOS calls take around their remote calls. The interrupts
-- are off while the word is tested and set.
use kernelreloaded.Common.{is_zero, Option, none, some, if◌then◌else◌, ℤ, pos, negsuc}

-- The test and the write of `sbios_tryLock`, on the word of the mutex.
abbrev pub try_word : ℤ → ℤ × ℤ
try_word m = if is_zero m then (pos 0, negsuc 0) else (negsuc 1, m)

-- `sbios_tryLock`; a NULL mutex is `none`.
unfoldable pub try_lock : Option ℤ → ℤ × Option ℤ
try_lock none = (negsuc 0, none)
try_lock (some m) = let (r, m') = try_word m in (r, some m')

-- `sbios_unlock`, which only prints a message for a mutex that is not locked.
unfoldable pub unlock : Option ℤ → Option ℤ
unlock none = none
unlock (some m) = if is_zero m then some m else some (pos 0)
