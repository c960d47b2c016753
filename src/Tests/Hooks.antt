-- ===== src/Tests/Hooks.antt =====
-- Tests of pkg/burner/hooks.go.
use kube_burner.Prelude.{
  String, Bool, true, false, List, [], ◌∷◌, ◌++◌, none, some, ◌≡◌, refl, take, arith,
}
use kube_burner.Prelude.Int.{pos}
use kube_burner.Config.Types.{Hook, before_job_execution}
use kube_burner.Hooks.{
  HookManager, Shell, MonitorEnd, exited, execute_hooks, wait_background_hooks, add_results,
  monitor_background_hook, monitor_all, drain, collect_background_hook_results,
}
use kube_burner.Hooks.Plan.{Starts, stage_plan, execute_hooks-Starts}
use kube_burner.Hooks.Queue.{results_of, wait_background_hooks-take}

abbrev shell : Shell
shell = record {
  is_abs = λ path. false;
  is_missing = λ path. false;
  reader_err = λ path. none;
  output_err = λ n path. none;
  start_err = λ n cmd. none;
  run_err = λ n cmd. some "exit status 1";
}

abbrev hook_of : String → Bool → Hook
hook_of script background = record {
  cmd = script ∷ [];
  when = before_job_execution;
  background = background;
  output_file = "";
}

abbrev three_hooks : List Hook
three_hooks = hook_of "a.sh" false ∷ hook_of "b.sh" true ∷ hook_of "c.sh" false ∷ []

abbrev manager : HookManager
manager = record {
  result_chan = [];
  capacity = 2;
  running = three_hooks;
  has_embed = false;
  started = [];
}

execute_hooks-Starts_example :
    Starts manager
      (stage_plan shell false before_job_execution three_hooks)
      (execute_hooks shell three_hooks before_job_execution manager)
execute_hooks-Starts_example = execute_hooks-Starts shell three_hooks before_job_execution manager

abbrev three_ends : List MonitorEnd
three_ends = exited none (pos 1) ∷ exited none (pos 2) ∷ exited (some "exit status 1") (pos 3) ∷ []

wait_background_hooks-take_example :
    ((wait_background_hooks three_ends manager).0 ≡ take 2 ([] ++ results_of three_ends))
    × ((wait_background_hooks three_ends manager).1.result_chan ≡ [])
    × ((wait_background_hooks three_ends manager).1.capacity ≡ 2)
    × ((wait_background_hooks three_ends manager).1.running ≡ [])
wait_background_hooks-take_example = wait_background_hooks-take three_ends manager (omega arith)

-- The error of the third hook is lost.
third_error_is_lost :
    (collect_background_hook_results three_hooks three_ends manager [] (pos 0)).0 ≡ ([], pos 0)
unfolding collect_background_hook_results wait_background_hooks add_results monitor_all
    monitor_background_hook drain
third_error_is_lost = refl
