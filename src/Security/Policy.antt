-- ===== src/Security/Policy.antt =====
-- The checks on system calls and privilege levels of kernel/security.c, with the numbers of
-- kernel/syscall.h, kernel/security.h and kernel/task.h.
use uint_os.Common.{
  ℕ, Bool, true, false, ◌||◌, Option, none, some, List, [], ◌∷◌, ◌==◌, leb, ltb, if◌then◌else◌,
}

abbrev pub sys_module_load : ℕ
sys_module_load = 20

abbrev pub sys_module_unload : ℕ
sys_module_unload = 21

-- The cases of the switch that answer true: memory, processes, files, time and directories, in
-- the order of the source.
abbrev pub open_syscalls : List ℕ
open_syscalls =
    11 ∷ 12 ∷ 13 ∷ 2 ∷ 8 ∷ 1 ∷ 7 ∷ 14 ∷ 15 ∷ 19 ∷ 5 ∷ 3 ∷ 4 ∷ 6 ∷ 10 ∷ 9 ∷ 16 ∷ 17 ∷ 18 ∷ []

abbrev pub listed : ℕ → List ℕ → Bool
listed n [] = false
listed n (x ∷ xs) = n == x || listed n xs

-- The task is its effective user id, or NULL.
unfoldable pub security_check_syscall_permission : Option ℕ → ℕ → Bool
security_check_syscall_permission none syscall_num = false
security_check_syscall_permission (some euid) syscall_num =
    if euid == 0
    then true
    else if syscall_num == sys_module_load || syscall_num == sys_module_unload
    then euid == 0
    else if listed syscall_num open_syscalls
    then true
    else if ltb 50 syscall_num
    then false
    else true

abbrev pub task_priv_kernel : ℕ
task_priv_kernel = 0

abbrev pub task_priv_driver : ℕ
task_priv_driver = 1

abbrev pub task_priv_system : ℕ
task_priv_system = 2

abbrev pub priv_none : ℕ
priv_none = 0

abbrev pub priv_user : ℕ
priv_user = 1

abbrev pub priv_system_service : ℕ
priv_system_service = 2

abbrev pub priv_security_admin : ℕ
priv_security_admin = 4

abbrev pub priv_kernel : ℕ
priv_kernel = 8

-- The current task is its privilege level, or NULL in early boot.
unfoldable pub security_check_privilege : Option ℕ → ℕ → Bool
security_check_privilege none level = true
security_check_privilege (some task_level) level =
    if level == priv_none
    then true
    else if level == priv_user
    then true
    else if level == priv_system_service
    then leb task_level task_priv_system
    else if level == priv_security_admin
    then leb task_level task_priv_driver
    else if level == priv_kernel
    then task_level == task_priv_kernel
    else false
