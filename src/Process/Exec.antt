-- ===== src/Process/Exec.antt =====
-- The writes to the task table that kernel/loader/user_exec.c, kernel/shell.c, kernel/user.c and
-- kernel/loader/cndyn_loader.c make themselves, between their calls of kernel/process.c.
use cnos.Prelude.{ℕ, ◌<◌, ◌≡◌, refl, false, arith}
use cnos.Process.{System, is_free, max_tasks, set_task, set_state, free, blocked}
use cnos.Process.Find.{IsTable}
use cnos.Process.Life.{set_task-IsTable}

-- `user_sys_waitpid` on a child that has not exited: slot `i` waits for `target`, 0 for any.
unfoldable pub wait_blocked : ℕ → ℕ → System → System
wait_blocked i target s =
    set_task s i (set_state (record (s.tasks i) { wait_target = target }) blocked)

-- `user_sys_waitpid` after the wake-up takes the result.
unfoldable pub take_result : ℕ → System → System
take_result i s = set_task s i (record (s.tasks i) { wait_result_pid = 0; wait_result_status = 0 })

-- A spawn whose image does not load.
unfoldable pub drop_child : ℕ → System → System
drop_child i s = set_task s i (set_state (s.tasks i) free)

-- A spawn whose image has loaded.
unfoldable pub enter_child : ℕ → ℕ → ℕ → System → System
enter_child i entry stack_top s =
    set_task s i (record (s.tasks i) { user_entry = entry; user_stack_top = stack_top })

-- `user_sys_fork`: the child in slot `i` of the task in slot `cur`.
unfoldable pub share_space : ℕ → ℕ → ℕ → ℕ → System → System
share_space i cur rip rsp s = set_task s i (record (s.tasks i) {
  pml4_phys = (s.tasks cur).pml4_phys;
  vm_flags = 1;
  user_entry = rip;
  user_stack_top = rsp;
})

-- `chaseros_active_user_pid = 2`.
unfoldable pub activate_user : System → System
activate_user s = record s { active_user_pid = 2 }

module _ (i : ℕ) (s : System) (v : IsTable s) (h : i < max_tasks) where
  pub drop_child-IsTable : IsTable (drop_child i s)
  unfolding drop_child set_state
  drop_child-IsTable = record {
    own_pid = λ j lt live. ground (arith, v.own_pid j lt);
    current = v.current;
    solo = λ j lt r. ground (arith, v.solo j lt);
  }

  module _ (live : is_free (s.tasks i).state ≡ false) where
    pub wait_blocked-IsTable : (target : ℕ) → IsTable (wait_blocked i target s)
    unfolding wait_blocked set_state
    wait_blocked-IsTable target = set_task-IsTable s i _ v h live refl (λ r. ground arith)

    pub take_result-IsTable : IsTable (take_result i s)
    unfolding take_result
    take_result-IsTable = set_task-IsTable s i _ v h live refl (λ r. r)

    pub enter_child-IsTable : (entry stack_top : ℕ) → IsTable (enter_child i entry stack_top s)
    unfolding enter_child
    enter_child-IsTable entry stack_top = set_task-IsTable s i _ v h live refl (λ r. r)

    pub share_space-IsTable : (cur rip rsp : ℕ) → IsTable (share_space i cur rip rsp s)
    unfolding share_space
    share_space-IsTable cur rip rsp = set_task-IsTable s i _ v h live refl (λ r. r)

pub activate_user-IsTable : (s : System) → IsTable s → IsTable (activate_user s)
unfolding activate_user
activate_user-IsTable s v = record { own_pid = v.own_pid; current = v.current; solo = v.solo }
