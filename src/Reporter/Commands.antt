-- ===== src/Reporter/Commands.antt =====
-- plugins/core/reporter/grpc/grpc.go: the commands of trace profiling that the reporter fetches, and the
-- time of the latest one, which the next query sends.
pub mod Latest
use skywalking_go.Base.{
  Bool, true, false, [], ◌∷◌, List, Option, none, some, ℤ, negsuc, lt_int, Bytes, codes, str_eq,
  if◌then◌else◌,
}
use skywalking_go.Profile.Tasks.{
  Manager, new_profile_manager, add_profile_task, remove_profile_task,
}

pub record Command : Type 0 where
  pub command : Bytes
  pub args : List (Bytes × Bytes)

-- The fields of the reporter that the fetch uses.
pub record Fetch : Type 0 where
  pub last_profile_command_time : ℤ
  pub profile_task_manager : Manager

pub new_fetch : Fetch
new_fetch = record {
  last_profile_command_time = negsuc 0;
  profile_task_manager = new_profile_manager;
}

pub handle_profile_task : Command → ℤ → Manager → Manager × ℤ
unfolding add_profile_task
handle_profile_task cmd t m =
    if str_eq cmd.command (codes "ProfileTaskQuery") then add_profile_task cmd.args t m else (m, t)

pub handle_commands : List Command → Fetch → Fetch
unfolding handle_profile_task
handle_commands [] f = f
handle_commands (cmd ∷ cmds) f =
    let (m, nt) = handle_profile_task cmd f.last_profile_command_time f.profile_task_manager in
    handle_commands cmds (record {
      last_profile_command_time =
          if lt_int f.last_profile_command_time nt then nt else f.last_profile_command_time;
      profile_task_manager = m;
    })

-- One polling round at the time `now`; none is an error of `GetProfileTaskCommands`.
pub fetch_profile_tasks_once : Option (List Command) → ℤ → Fetch → Fetch
unfolding handle_commands
fetch_profile_tasks_once none now f = f
fetch_profile_tasks_once (some cmds) now f =
    let f' = handle_commands cmds f in
    record f' { profile_task_manager = remove_profile_task now f'.profile_task_manager }
