-- ===== src/Locks.antt =====
-- OpenCTDriver/src/ifd/locks.c: the locks on the slots of a reader. A pointer to a socket is a number;
-- a slot is the unsigned int that the code compares.
pub mod Exclusion
use open_pgpcard_emu.Base.{
  ℕ, suc, ◌+◌, ◌%◌, ◌^◌, Bool, true, false, ◌&&◌, ◌||◌, not, List, [], ◌∷◌, ◌==◌, ◌!=◌,
  if◌then◌else◌, ℤ, pos, negsuc,
}

abbrev pub lock_shared : ℕ
lock_shared = 0

abbrev pub lock_exclusive : ℕ
lock_exclusive = 1

abbrev pub error_no_memory : ℤ
error_no_memory = negsuc 9

abbrev pub error_locked : ℤ
error_locked = negsuc 6

abbrev pub error_nolock : ℤ
error_nolock = negsuc 7

-- `ct_lock_t`
pub record Lock : Type 0 where
  pub slot : ℕ
  pub uid : ℕ
  pub handle : ℕ
  pub owner : ℕ
  pub exclusive : Bool

-- What the code reads of a `ct_socket_t`: its address, and the user behind it.
pub record Client : Type 0 where
  pub address : ℕ
  pub client_uid : ℕ

-- The globals `locks` and `lock_handle`.
pub record Table : Type 0 where
  pub locks : List Lock
  pub lock_handle : ℕ

-- The test of one lock in the loop of `ifdhandler_check_lock`.
unfoldable pub conflicts : Client → ℕ → ℕ → Lock → Bool
conflicts sock slot type l =
    if l.slot != slot
    then false
    else if l.owner == sock.address
    then false
    else l.exclusive || (type == lock_exclusive || l.uid != sock.client_uid)

-- `ifdhandler_check_lock`
unfoldable pub check_lock : Client → ℕ → ℕ → List Lock → ℤ
unfolding conflicts
check_lock sock slot type [] = pos 0
check_lock sock slot type (l ∷ locks) =
    if conflicts sock slot type l then error_locked else check_lock sock slot type locks

-- The lock that is granted.
unfoldable pub granted : Client → ℕ → ℕ → ℕ → Lock
granted sock slot type handle = record {
  slot = slot;
  uid = sock.client_uid;
  handle = handle;
  owner = sock.address;
  exclusive = type == lock_exclusive;
}

-- What `ifdhandler_lock` returns, and stores in `*res`.
pub record Grant : Type 0 where
  pub code : ℤ
  pub res : ℕ

-- The part of `ifdhandler_lock` behind the check.
unfoldable pub grant : Bool → Client → ℕ → ℕ → ℕ → Table → Grant × Table
unfolding granted
grant false sock slot type old t = (record { code = error_no_memory; res = old }, t)
grant true sock slot type old t = (
  record { code = pos 0; res = t.lock_handle },
  record {
    locks = granted sock slot type t.lock_handle ∷ t.locks;
    lock_handle = (t.lock_handle + 1) % 2 ^ 32;
  },
)

unfoldable pub after_check : ℤ → Bool → Client → ℕ → ℕ → ℕ → Table → Grant × Table
unfolding grant
after_check (pos n) memory sock slot type old t = grant memory sock slot type old t
after_check (negsuc n) memory sock slot type old t = (record { code = negsuc n; res = old }, t)

-- `ifdhandler_lock`, with `memory` for whether `calloc` succeeds and `old` for what `*res` holds.
unfoldable pub lock : Bool → Client → ℕ → ℕ → ℕ → Table → Grant × Table
unfolding check_lock after_check
lock memory sock slot type old t =
    after_check (check_lock sock slot type t.locks) memory sock slot type old t

-- The test of one lock in `ifdhandler_unlock`.
unfoldable pub matches : Client → ℕ → ℕ → Lock → Bool
matches sock slot handle l = l.owner == sock.address && (l.slot == slot && l.handle == handle)

unfoldable pub unlock_from : Client → ℕ → ℕ → List Lock → ℤ × List Lock
unfolding matches
unlock_from sock slot handle [] = (error_nolock, [])
unlock_from sock slot handle (l ∷ locks) =
    let (code, rest) = unlock_from sock slot handle locks in
    if matches sock slot handle l then (pos 0, locks) else (code, l ∷ rest)

-- `ifdhandler_unlock`
unfoldable pub unlock : Client → ℕ → ℕ → Table → ℤ × Table
unfolding unlock_from
unlock sock slot handle t =
    let (code, locks) = unlock_from sock slot handle t.locks in (code, record t { locks = locks })

unfoldable pub keep_others : Client → List Lock → List Lock
keep_others sock [] = []
keep_others sock (l ∷ locks) =
    let rest = keep_others sock locks in if l.owner == sock.address then rest else l ∷ rest

-- `ifdhandler_unlock_all`
unfoldable pub unlock_all : Client → Table → Table
unfolding keep_others
unlock_all sock t = record t { locks = keep_others sock t.locks }
