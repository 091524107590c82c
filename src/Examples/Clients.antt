-- ===== src/Examples/Clients.antt =====
-- Two clients of OpenCTDriver/src/ifd/locks.c.
use open_pgpcard_emu.Base.{◌≡◌, refl, [], true, pos}
use open_pgpcard_emu.Locks.{
  Client, Table, lock, unlock, check_lock, after_check, lock_shared, lock_exclusive,
}
use open_pgpcard_emu.Locks.Exclusion.{
  Reachable, start, on_lock, IsExclusive, Reachable-IsExclusive, unlock-lock,
}

abbrev first : Client
first = record { address = 1; client_uid = 1000 }

abbrev second : Client
second = record { address = 2; client_uid = 1000 }

abbrev free : Table
free = record { locks = []; lock_handle = 0 }

-- Both share slot 0, and the second asks for slot 1 alone.
abbrev shared : Table
shared =
    (lock true second 1 lock_exclusive 0
      (lock true second 0 lock_shared 0 (lock true first 0 lock_shared 0 free).1).1).1

shared-Reachable : Reachable shared
shared-Reachable =
    on_lock true second 1 lock_exclusive 0
      (on_lock true second 0 lock_shared 0 (on_lock true first 0 lock_shared 0 start))

Reachable-IsExclusive_example : IsExclusive shared.locks
Reachable-IsExclusive_example = Reachable-IsExclusive shared shared-Reachable

free-granted : (lock true first 0 lock_exclusive 9 free).0.code ≡ pos 0
unfolding lock check_lock after_check
free-granted = refl

unlock-lock_example :
    ((unlock first 0
        (lock true first 0 lock_exclusive 9 free).0.res
        (lock true first 0 lock_exclusive 9 free).1).0
      ≡ pos 0)
    × ((unlock first 0
          (lock true first 0 lock_exclusive 9 free).0.res
          (lock true first 0 lock_exclusive 9 free).1).1.locks
        ≡ free.locks)
unlock-lock_example = unlock-lock first 0 lock_exclusive 9 free free-granted
