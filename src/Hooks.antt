-- ===== src/Hooks.antt =====
-- pkg/burner/hooks.go: the hook manager of a job, and CollectAndLogBackgroundHookResults of
-- pkg/burner/utils.go. A monitor goroutine is an entry of `running` until it calls Done; the order
-- in which monitors end is an argument. Files and processes are answers of a Shell, by the number
-- of commands started so far. The output files and their closing are left to the Shell's errors.

pub mod Plan
pub mod Queue
use kube_burner.Prelude.{
  ℕ, ltb, String, str_eq, Bool, true, false, not, ◌&&◌, List, [], ◌∷◌, ◌++◌, Option, none, some,
  length, if◌then◌else◌,
}
use kube_burner.Prelude.Int.{ℤ, pos}
use kube_burner.Config.Types.{Hook, JobStage}

pub record HookResult : Type 0 where
  pub err : Option String
  pub duration : ℤ

-- An exec.Cmd, with whether its standard input is an embedded script.
pub record Command : Type 0 where
  pub program : String
  pub args : List String
  pub script_input : Bool

pub record HookManager : Type 0 where
  -- resultChan, oldest first, and cap(resultChan)
  pub result_chan : List HookResult
  pub capacity : ℕ
  -- the hooks whose monitors have not called Done
  pub running : List Hook
  -- whether embedCfg is not nil
  pub has_embed : Bool
  -- the commands that were started, oldest first
  pub started : List Command

-- A panic, the error of a hook, or success.
pub data HookEnd : Type 0 where
  panics : HookEnd
  fails : String → HookEnd
  succeeds : HookEnd

-- What the rest does behind a success; anything else is returned.
abbrev pub go_on :
    HookEnd × HookManager → (HookManager → HookEnd × HookManager) → HookEnd × HookManager
go_on (succeeds, after) rest = rest after
go_on (fails e, after) rest = (fails e, after)
go_on (panics, after) rest = (panics, after)

-- What the hooks ask of the file system and of processes.
pub record Shell : Type 0 where
  pub is_abs : String → Bool
  -- os.IsNotExist of os.Stat
  pub is_missing : String → Bool
  -- the error of GetScriptsReader
  pub reader_err : String → Option String
  -- the error of os.Create for an output file
  pub output_err : ℕ → String → Option String
  -- the error of cmd.Start and of cmd.Run
  pub start_err : ℕ → Command → Option String
  pub run_err : ℕ → Command → Option String

pub data Prepared : Type 0 where
  no_command : Prepared
  unreadable : String → Prepared
  command : Command → Prepared

unfoldable pub new_hook_manager : ℕ → Bool → HookManager
new_hook_manager hook_count has_embed = record {
  result_chan = [];
  capacity = hook_count;
  running = [];
  has_embed = has_embed;
  started = [];
}

unfoldable pub is_hook_due : Bool → JobStage → Hook → Bool
is_hook_due background when hook =
    str_eq hook.when when && (if background then hook.background else not hook.background)

module _ (sh : Shell) where
  -- hook.Cmd[0] of an empty command panics.
  pub prepare_command : Bool → Hook → Prepared
  prepare_command has_embed hook = elim hook.cmd [
    | [] ↦ no_command
    | script ∷ args ↦
        if not (sh.is_abs script) && sh.is_missing script && has_embed
        then elim (sh.reader_err script) [
          | some e ↦ unreadable e
          | none ↦
              command
                (record { program = "/bin/bash"; args = "-s" ∷ "-" ∷ args; script_input = true })
        ]
        else command (record { program = script; args = args; script_input = false })
  ]

  open_output : HookManager → Hook → Option String
  open_output hm hook =
      if str_eq hook.output_file ""
      then none
      else sh.output_err (length hm.started) hook.output_file

  begin : Command → HookManager → HookManager
  begin cmd hm = record hm { started = hm.started ++ (cmd ∷ []) }

  start_background : Hook → Command → HookManager → HookEnd × HookManager
  start_background hook cmd hm = elim (open_output hm hook) [
    | some e ↦ (fails e, hm)
    | none ↦ elim (sh.start_err (length hm.started) cmd) [
      | some e ↦ (fails e, hm)
      | none ↦ (succeeds, record (begin cmd hm) { running = hm.running ++ (hook ∷ []) })
    ]
  ]

  pub execute_background_hook : Hook → HookManager → HookEnd × HookManager
  execute_background_hook hook hm = elim (prepare_command hm.has_embed hook) [
    | no_command ↦ (panics, hm)
    | unreadable e ↦ (fails e, hm)
    | command cmd ↦ start_background hook cmd hm
  ]

  run_foreground : Hook → Command → HookManager → HookEnd × HookManager
  run_foreground hook cmd hm = elim (open_output hm hook) [
    | some e ↦ (fails e, hm)
    | none ↦ elim (sh.run_err (length hm.started) cmd) [
      | some e ↦ (fails e, begin cmd hm)
      | none ↦ (succeeds, begin cmd hm)
    ]
  ]

  pub execute_foreground_hook : Hook → HookManager → HookEnd × HookManager
  execute_foreground_hook hook hm = elim (prepare_command hm.has_embed hook) [
    | no_command ↦ (panics, hm)
    | unreadable e ↦ (fails e, hm)
    | command cmd ↦ run_foreground hook cmd hm
  ]

  execute_hook : Bool → Hook → HookManager → HookEnd × HookManager
  execute_hook true hook hm = execute_background_hook hook hm
  execute_hook false hook hm = execute_foreground_hook hook hm

  -- A loop of executeHooks, over the background hooks of a stage or over the others.
  pub hook_loop : Bool → JobStage → List Hook → HookManager → HookEnd × HookManager
  hook_loop background when [] hm = (succeeds, hm)
  hook_loop background when (hook ∷ hooks) hm = elim (is_hook_due background when hook) [
    | true ↦ go_on (execute_hook background hook hm) (hook_loop background when hooks)
    | false ↦ hook_loop background when hooks hm
  ]

  unfoldable pub execute_hooks : List Hook → JobStage → HookManager → HookEnd × HookManager
  execute_hooks hooks when hm = go_on (hook_loop true when hooks hm) (hook_loop false when hooks)

-- How the select of a monitor ends: the process, or the context.
pub data MonitorEnd : Type 0 where
  exited : Option String → ℤ → MonitorEnd
  cancelled : MonitorEnd

-- A result is sent without blocking: where the channel is full it is only logged.
unfoldable pub monitor_background_hook : MonitorEnd → HookManager → HookManager
monitor_background_hook cancelled hm = hm
monitor_background_hook (exited err duration) hm =
    if ltb (length hm.result_chan) hm.capacity
    then record hm {
      result_chan = hm.result_chan ++ (record { err = err; duration = duration } ∷ []);
    }
    else hm

unfoldable pub monitor_all : List MonitorEnd → HookManager → HookManager
monitor_all [] hm = hm
monitor_all (e ∷ ends) hm = monitor_all ends (monitor_background_hook e hm)

unfoldable pub drain : List HookResult → List HookResult → List HookResult
drain results [] = results
drain results (result ∷ chan) = drain (results ++ (result ∷ [])) chan

-- backgrounWg.Wait() returns when the monitors that run have ended, in the order of `ends`.
unfoldable pub wait_background_hooks : List MonitorEnd → HookManager → List HookResult × HookManager
wait_background_hooks ends hm =
    let done = monitor_all ends hm in
    (drain [] done.result_chan, record done { result_chan = []; running = [] })

unfoldable pub add_results : List HookResult → List String → ℤ → List String × ℤ
add_results [] errs inner_rc = (errs, inner_rc)
add_results (result ∷ results) errs inner_rc = elim (result.err) [
  | some e ↦ add_results results (errs ++ (e ∷ [])) (pos 1)
  | none ↦ add_results results errs inner_rc
]

-- CollectAndLogBackgroundHookResults, for the hooks of the job.
unfoldable pub collect_background_hook_results :
    List Hook → List MonitorEnd → HookManager → List String → ℤ → (List String × ℤ) × HookManager
collect_background_hook_results [] ends hm errs inner_rc = ((errs, inner_rc), hm)
collect_background_hook_results (hook ∷ hooks) ends hm errs inner_rc =
    let collected = wait_background_hooks ends hm in
    (add_results collected.0 errs inner_rc, collected.1)
