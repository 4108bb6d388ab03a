-- ===== src/Security/Tests.antt =====
-- Permission checks at concrete users.
use h3os.Base.{◌≡◌, refl, true, false, some, ◌==◌, ◌||◌}
use h3os.Security.{
  Rwx, security_init, security_check_perm, security_check_perm_lem, mode_of, class_of,
}

abbrev read_write : Rwx
read_write = record { r = true; w = true; x = false }

abbrev read_only : Rwx
read_only = record { r = true; w = false; x = false }

started : security_init.current ≡ some 1
unfolding security_init
started = refl

-- The mode 0644 of a file of root: the user 1000 is refused a write.
security_check_perm_lem_example :
    security_check_perm security_init (mode_of read_write read_only read_only) 0 0 true ≡ (
      (security_init.users 1).uid == 0
      || (class_of (security_init.users 1) 0 0 read_write read_only read_only).w)
security_check_perm_lem_example =
    security_check_perm_lem security_init 1 read_write read_only read_only 0 0 true started
