-- ===== src/Hooks/Plan.antt =====
-- The order in which executeHooks starts the commands of a stage.
use kube_burner.Prelude.{
  String, Bool, true, false, List, [], ◌∷◌, ◌++◌, Option, none, some, ◌≡◌, refl, sym, ap, subst,
  ◌∙◌, append_assoc, append-nil, Bool-cases, inl, inr, length,
}
use kube_burner.Config.Types.{Hook, JobStage}
use kube_burner.Hooks.{
  Command, HookManager, Shell, HookEnd, panics, fails, succeeds, go_on, Prepared, no_command,
  unreadable, command, is_hook_due, prepare_command, open_output, begin, start_background,
  execute_background_hook, run_foreground, execute_foreground_hook, execute_hook, hook_loop,
  execute_hooks,
}

-- Nothing is left to start behind a success.
abbrev pub Leaves : HookEnd → List Command → Type 0
Leaves succeeds rest = rest ≡ []
Leaves (fails e) rest = Unit
Leaves panics rest = Unit

-- From a manager, the commands of a plan were started in its order, all of them or, where an error
-- ended it, the first ones.
abbrev pub Starts : HookManager → List Command → HookEnd × HookManager → Type 0
Starts before plan (result, after) =
    (rest : List Command) × (before.started ++ plan ≡ after.started ++ rest)
    × (after.has_embed ≡ before.has_embed)
    × Leaves result rest

abbrev pub commands_of : Prepared → List Command
commands_of no_command = []
commands_of (unreadable e) = []
commands_of (command cmd) = cmd ∷ []

-- The commands of the hooks that a loop is to start.
abbrev pub planned : Shell → Bool → Bool → JobStage → List Hook → List Command
planned sh has_embed background when [] = []
planned sh has_embed background when (hook ∷ hooks) =
    let later = planned sh has_embed background when hooks in
    elim (is_hook_due background when hook) [
      | true ↦ commands_of (prepare_command sh has_embed hook) ++ later
      | false ↦ later
    ]

-- First the background hooks of the stage, then the others.
abbrev pub stage_plan : Shell → Bool → JobStage → List Hook → List Command
stage_plan sh has_embed when hooks =
    planned sh has_embed true when hooks ++ planned sh has_embed false when hooks

module _ (sh : Shell) (before : HookManager) (hook : Hook) (cmd : Command) where
  start_background-Starts : Starts before (cmd ∷ []) (start_background sh hook cmd before)
  unfolding start_background open_output begin
  start_background-Starts =
      by_errors (open_output sh before hook) (sh.start_err (length before.started) cmd)
    where
      by_errors :
          (output start : Option String)
          → Starts before (cmd ∷ []) (elim output [
            | some e ↦ (fails e, before)
            | none ↦ elim start [
              | some e ↦ (fails e, before)
              | none ↦ (
                succeeds,
                record (begin sh cmd before) { running = before.running ++ (hook ∷ []) },
              )
            ]
          ])
      by_errors (some e) start = (cmd ∷ [], refl, refl, tt)
      by_errors none (some e) = (cmd ∷ [], refl, refl, tt)
      by_errors none none = ([], sym (append-nil _), refl, refl)

  run_foreground-Starts : Starts before (cmd ∷ []) (run_foreground sh hook cmd before)
  unfolding run_foreground open_output begin
  run_foreground-Starts =
      by_errors (open_output sh before hook) (sh.run_err (length before.started) cmd)
    where
      by_errors :
          (output run : Option String)
          → Starts before (cmd ∷ []) (elim output [
            | some e ↦ (fails e, before)
            | none ↦ elim run [
              | some e ↦ (fails e, begin sh cmd before)
              | none ↦ (succeeds, begin sh cmd before)
            ]
          ])
      by_errors (some e) run = (cmd ∷ [], refl, refl, tt)
      by_errors none (some e) = ([], sym (append-nil _), refl, tt)
      by_errors none none = ([], sym (append-nil _), refl, refl)

prepared-Starts :
    (before : HookManager) (prepared : Prepared) (run : Command → HookEnd × HookManager)
    → ((cmd : Command) → Starts before (cmd ∷ []) (run cmd))
    → Starts before (commands_of prepared) (elim prepared [
      | no_command ↦ (panics, before)
      | unreadable e ↦ (fails e, before)
      | command cmd ↦ run cmd
    ])
prepared-Starts before no_command run h = ([], refl, refl, tt)
prepared-Starts before (unreadable e) run h = ([], refl, refl, tt)
prepared-Starts before (command cmd) run h = h cmd

execute_hook-Starts :
    (sh : Shell) (background : Bool) (hook : Hook) (before : HookManager)
    → Starts before
        (commands_of (prepare_command sh before.has_embed hook))
        (execute_hook sh background hook before)
unfolding execute_hook execute_background_hook execute_foreground_hook
execute_hook-Starts sh true hook before =
    prepared-Starts before (prepare_command sh before.has_embed hook)
      (λ cmd. start_background sh hook cmd before) (start_background-Starts sh before hook)
execute_hook-Starts sh false hook before =
    prepared-Starts before (prepare_command sh before.has_embed hook)
      (λ cmd. run_foreground sh hook cmd before) (run_foreground-Starts sh before hook)

-- Two plans, the second one followed behind a success of the first.
go_on-Starts :
    (before : HookManager) (first second : List Command) (step : HookEnd × HookManager)
    (rest : HookManager → HookEnd × HookManager)
    → Starts before first step
    → ((after : HookManager)
        → after.has_embed ≡ before.has_embed
        → Starts after second (rest after))
    → Starts before (first ++ second) (go_on step rest)
go_on-Starts before first second (succeeds, after) rest (left, told, same, none_left) h =
    let (later, retold, still, ends) = h after same in
    (
      later,
      sym (append_assoc before.started first second)
          ∙ ap (λ front. front ++ second)
              (told ∙ ap (λ l. after.started ++ l) none_left ∙ append-nil after.started)
          ∙ retold,
      still ∙ same,
      ends,
    )
go_on-Starts before first second (fails e, after) rest (left, told, same, ends) h = (
  left ++ second,
  sym (append_assoc before.started first second)
      ∙ ap (λ front. front ++ second) told
      ∙ append_assoc after.started left second,
  same,
  tt,
)
go_on-Starts before first second (panics, after) rest (left, told, same, ends) h = (
  left ++ second,
  sym (append_assoc before.started first second)
      ∙ ap (λ front. front ++ second) told
      ∙ append_assoc after.started left second,
  same,
  tt,
)

hook_loop-Starts :
    (sh : Shell) (background : Bool) (when : JobStage) (hooks : List Hook) (has_embed : Bool)
    (before : HookManager)
    → before.has_embed ≡ has_embed
    → Starts before
        (planned sh has_embed background when hooks)
        (hook_loop sh background when hooks before)
unfolding hook_loop
hook_loop-Starts sh background when [] has_embed before e = ([], refl, refl, refl)
hook_loop-Starts sh background when (hook ∷ hooks) has_embed before e =
    elim (Bool-cases (is_hook_due background when hook)) [
      | inl due ↦
          rw (due, hook_loop, planned)
            (go_on-Starts before (commands_of (prepare_command sh has_embed hook))
              (planned sh has_embed background when hooks) (execute_hook sh background hook before)
              (hook_loop sh background when hooks)
              (subst
                (λ b.
                  Starts before (commands_of (prepare_command sh b hook))
                    (execute_hook sh background hook before))
                e (execute_hook-Starts sh background hook before))
              (λ after same. hook_loop-Starts sh background when hooks has_embed after (same ∙ e)))
      | inr other ↦
          rw (other, hook_loop, planned)
            (hook_loop-Starts sh background when hooks has_embed before e)
    ]

-- executeHooks starts the commands of a stage in order: those of its background hooks first, then
-- those of the others, each in the order of the list; it starts all of them where it succeeds, and
-- the first ones of them otherwise. What was started before is kept.
pub execute_hooks-Starts :
    (sh : Shell) (hooks : List Hook) (when : JobStage) (before : HookManager)
    → Starts before (stage_plan sh before.has_embed when hooks) (execute_hooks sh hooks when before)
unfolding execute_hooks
execute_hooks-Starts sh hooks when before =
    go_on-Starts before (planned sh before.has_embed true when hooks)
      (planned sh before.has_embed false when hooks) (hook_loop sh true when hooks before)
      (hook_loop sh false when hooks)
      (hook_loop-Starts sh true when hooks before.has_embed before refl)
      (λ after same. hook_loop-Starts sh false when hooks before.has_embed after same)
