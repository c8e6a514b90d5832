-- ===== src/FdManager.antt =====
-- East/src/FdManager.cc with East/include/FdManager.h: what the library knows of a descriptor, by number. The
-- flags of an open file are the system's, and so is what kind of file it is.
use east.Common.{
  ℕ, zero, suc, ◌-◌, ◌*◌, ◌/◌, ◌^◌, ◌≡◌, Bool, true, false, Option, none, some, List, [], ◌∷◌, ◌++◌,
  Outcome, ok, throws, undefined, if◌then◌else◌, ltb, leb, length, take, get_elem?, set,
}

-- The status flags of an open file: O_NONBLOCK, and the others as they are.
pub record Flags : Type 0 where
  pub non_block : Bool
  pub others : ℕ

-- `fstat`, none where it fails and else whether the file is a socket; `fcntl` with F_GETFL and F_SETFL,
-- which answers whether it succeeded and then keeps O_NONBLOCK as it was given.
pub record System (K : Type 0) : Type 0 where
  pub stat : K → ℕ → Option Bool
  pub get_flags : K → ℕ → Flags
  pub set_flags : K → ℕ → Flags → Bool × K
  pub remembers :
      (k : K) (fd : ℕ) (flags : Flags)
      → (set_flags k fd flags).0 ≡ true
      → (get_flags (set_flags k fd flags).1 fd).non_block ≡ flags.non_block

pub record FileDescriptor : Type 0 where
  pub is_init : Bool
  pub is_socket : Bool
  pub sys_non_block : Bool
  pub user_non_block : Bool
  pub is_closed : Bool
  pub fd : ℕ
  pub recv_timeout : ℕ
  pub send_timeout : ℕ

-- The table `m_fds`, and the system.
pub record FdManager (K : Type 0) : Type 0 where
  pub fds : List (Option FileDescriptor)
  pub kernel : K

abbrev pub is_socket_stat : Option Bool → Bool
is_socket_stat none = false
is_socket_stat (some b) = b

abbrev pub is_init_stat : Option Bool → Bool
is_init_stat none = false
is_init_stat (some b) = true

-- The elements that a resize adds, null pointers.
abbrev pub nulls : ℕ → List (Option FileDescriptor)
nulls zero = []
nulls (suc n) = none ∷ nulls n

-- `tmp.resize(fd * 1.5)` and the copy, where the table ends at `fd` or before.
abbrev pub grown : ℕ → List (Option FileDescriptor) → List (Option FileDescriptor)
grown fd fds =
    if ltb fd (length fds) then fds else take (fd * 3 / 2) fds ++ nulls (fd * 3 / 2 - length fds)

-- `m_fds[fd]` and a null pointer in it, or past the end of the table, as none.
abbrev pub entry : Option (Option FileDescriptor) → Option FileDescriptor
entry none = none
entry (some f) = f

abbrev pub found : {K : Type 0} → ℕ → FdManager K → Option FileDescriptor
found fd m = entry (get_elem? m.fds fd)

abbrev pub put_fd : {K : Type 0} → ℕ → FileDescriptor → FdManager K → FdManager K
put_fd fd f m = record m { fds = set m.fds fd (some f) }

module _ {K : Type 0} (sys : System K) where
  -- A socket is made non-blocking.
  abbrev pub make_non_block : Bool → ℕ → K → K
  make_non_block false fd k = k
  make_non_block true fd k =
      if (sys.get_flags k fd).non_block
      then k
      else (sys.set_flags k fd (record (sys.get_flags k fd) { non_block = true })).1

  -- The constructor, with `init`.
  unfoldable pub new_fd : ℕ → K → FileDescriptor × K
  new_fd fd k =
      let status = sys.stat k fd in
      (
        record {
          is_init = is_init_stat status;
          is_socket = is_socket_stat status;
          sys_non_block = is_socket_stat status;
          user_non_block = false;
          is_closed = false;
          fd = fd;
          recv_timeout = 2 ^ 64 - 1;
          send_timeout = 2 ^ 64 - 1;
        },
        make_non_block (is_socket_stat status) fd k,
      )

  -- A new entry. A store past the end is undefined.
  unfoldable pub create_fd : ℕ → FdManager K → Outcome (Option FileDescriptor × FdManager K)
  create_fd fd m =
      let made = new_fd fd m.kernel in
      let fds = grown fd m.fds in
      if ltb fd (length fds)
      then ok (some made.0, record { fds = set fds fd (some made.0); kernel = made.1 })
      else throws undefined

  abbrev pub get_or_create :
      Option FileDescriptor → ℕ → Bool → FdManager K → Outcome (Option FileDescriptor × FdManager K)
  get_or_create (some f) fd create m = ok (some f, m)
  get_or_create none fd false m = ok (none, m)
  get_or_create none fd true m = create_fd fd m

  -- `getFd` for a descriptor that is not negative.
  unfoldable pub get_fd : ℕ → Bool → FdManager K → Outcome (Option FileDescriptor × FdManager K)
  get_fd fd create m = get_or_create (found fd m) fd create m

unfoldable pub delete_fd : {K : Type 0} → ℕ → FdManager K → FdManager K
delete_fd fd m = if leb (length m.fds) fd then m else record m { fds = set m.fds fd none }
