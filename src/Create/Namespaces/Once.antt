-- ===== src/Create/Namespaces/Once.antt =====
-- A namespace is asked for as long as ex.createdNamespaces does not say that it is there.
use kube_burner.Prelude.{
  ℕ, suc, ◌+◌, String, Bool, true, false, List, [], ◌∷◌, ◌++◌, Option, none, some, if◌then◌else◌,
  str_eq, ◌≡◌, ◌≢◌, ◌≤◌, All, subst, append_assoc, append-nil, zero, refl, sym, ◌∙◌, arith,
  Bool-cases, inl, inr, eq_iff,
}
use text.Mathlib.TextPositions.{eq_refl}
use kube_burner.Prelude.Int.{pos, eqb_ℤ, eq_of_parts}
use kube_burner.Prelude.Maps.{flag, lookup, insert, lookup-insert}
use kube_burner.Config.Types.{Labels, Job}
use kube_burner.Executor.{
  JobExecutor, World, Cluster, Event, namespace_created, namespace_not_created, NamespaceAnswer,
  namespace_made, namespace_exists, namespace_terminates, namespace_forbidden, namespace_fails, M,
  pure, ◌>>◌, fatal, emit, set_executor, >>=_at,
}
use kube_burner.Create.Namespaces.{
  quot, quot_ℤ, numbered, create_namespace, try_namespace, namespace_steps, create_iterations,
  generate_namespace, namespace_of,
}

-- A cluster that does not forbid the creation of namespaces.
abbrev pub IsAllowed : Cluster → Type 0
IsAllowed k = (n : ℕ) (ns : String) → k.create_namespace n ns ≢ namespace_forbidden

abbrev pub one : String → String → ℕ
one other ns = if str_eq other ns then 1 else 0

abbrev pub is_creation : String → Event → ℕ
is_creation ns e = elim e [ namespace_created other _ _ ↦ one other ns | _ ↦ 0 ]

abbrev pub is_call : String → Event → ℕ
is_call ns e = elim e [
  | namespace_created other _ _ ↦ one other ns
  | namespace_not_created other ↦ one other ns
  | _ ↦ 0
]

-- The events of a kind.
abbrev pub total : (Event → ℕ) → List Event → ℕ
total f [] = 0
total f (e ∷ es) = f e + total f es

total-append : (f : Event → ℕ) (xs ys : List Event) → total f (xs ++ ys) ≡ total f xs + total f ys
total-append f [] ys = omega arith
total-append f (x ∷ xs) ys = omega (arith, total-append f xs ys)

-- For each namespace that counts as created there has been a call, and at most one that made it; no
-- call has made another one.
abbrev pub IsOnce : World → Type 0
IsOnce w =
    (ns : String)
    → (total (is_creation ns) w.trace ≤ (if flag ns w.executor.created_namespaces then 1 else 0))
      × ((if flag ns w.executor.created_namespaces then 1 else 0) ≤ total (is_call ns) w.trace)

flag-insert :
    (j ns : String) (m : List (String × Bool))
    → flag j (insert ns true m) ≡ (if str_eq ns j then true else flag j m)
flag-insert j ns m = rw (flag, sym (lookup-insert ns j true m)) (go (str_eq ns j))
  where
    go :
        (b : Bool)
        → ◌≡◌ {A = Bool}
            (elim (if b then some true else lookup j m) [ none ↦ false | some c ↦ c ])
            (if b then true else flag j m)
    go true = refl
    go false = refl

-- What a step leaves: each namespace still once, and what counted as created still does; the job is
-- unchanged.
abbrev Keeps : World → World → Type 0
Keeps w w' =
    IsOnce w'
    × ((w'.executor.job ≡ w.executor.job)
        × ((j : String)
            → flag j w.executor.created_namespaces ≡ true
            → flag j w'.executor.created_namespaces ≡ true))

-- A try to create a namespace returns. At most one of its calls makes it, none makes another one, and
-- there is a call where `asked` says so.
Tried : String → Bool → M Bool → World → Type 0
Tried ns asked m w =
    (found : Bool) × (w' : World) × (m w ≡ some (found, w'))
    × (w'.executor ≡ w.executor)
    × (tail : List Event) × (w'.trace ≡ w.trace ++ tail)
    × ((j : String) → total (is_creation j) tail ≤ one ns j)
    × ((j : String) → (if asked then one ns j else 0) ≤ total (is_call j) tail)

abbrev asked_world : World → World
asked_world w = record w { clock = suc w.clock }

Tried-again :
    (ns : String) (asked : Bool) (w : World) (rest : M Bool)
    → ((v : World) → Tried ns asked rest v)
    → Tried ns true (emit (namespace_not_created ns) >> rest) w
unfolding Tried
Tried-again ns asked w rest later =
    let after = record w { trace = w.trace ++ (namespace_not_created ns ∷ []) } in
    let (found, w', runs, same, tail, longer, few, enough) = later after in
    (
      found,
      w',
      runs,
      same,
      namespace_not_created ns ∷ tail,
      longer ∙ append_assoc w.trace (namespace_not_created ns ∷ []) tail,
      (λ j. omega (arith, few j)),
      (λ j. omega arith),
    )

answered :
    (ns : String) (labels annotations : Labels) (asked : Bool) (answer : NamespaceAnswer)
    (w : World) (rest : M Bool)
    → answer ≢ namespace_forbidden
    → ((v : World) → Tried ns asked rest v)
    → Tried ns true
        (elim answer [
          | namespace_made ↦ emit (namespace_created ns labels annotations) >> pure true
          | namespace_exists ↦ emit (namespace_not_created ns) >> pure true
          | namespace_terminates ↦ emit (namespace_not_created ns) >> rest
          | namespace_forbidden ↦ fatal
          | namespace_fails ↦ emit (namespace_not_created ns) >> rest
        ])
        w
unfolding Tried
answered ns labels annotations asked namespace_made w rest h later = (
  true,
  record w { trace = w.trace ++ (namespace_created ns labels annotations ∷ []) },
  refl,
  refl,
  namespace_created ns labels annotations ∷ [],
  refl,
  (λ j. omega arith),
  (λ j. omega arith),
)
answered ns labels annotations asked namespace_exists w rest h later = (
  true,
  record w { trace = w.trace ++ (namespace_not_created ns ∷ []) },
  refl,
  refl,
  namespace_not_created ns ∷ [],
  refl,
  (λ j. omega arith),
  (λ j. omega arith),
)
answered ns labels annotations asked namespace_terminates w rest h later =
    Tried-again ns asked w rest later
answered ns labels annotations asked namespace_forbidden w rest h later = absurd (h refl)
answered ns labels annotations asked namespace_fails w rest h later =
    Tried-again ns asked w rest later

abbrev has_steps : ℕ → Bool
has_steps zero = false
has_steps (suc steps) = true

try_namespace-Tried :
    (k : Cluster) (ns : String) (labels annotations : Labels)
    → IsAllowed k
    → (steps : ℕ) (w : World)
    → Tried ns (has_steps steps) (try_namespace k steps ns labels annotations) w
unfolding try_namespace Tried
try_namespace-Tried k ns labels annotations allowed zero w =
    (false, w, refl, refl, [], sym (append-nil w.trace), (λ j. omega arith), (λ j. omega arith))
try_namespace-Tried k ns labels annotations allowed (suc steps) w =
    answered ns labels annotations (has_steps steps) (k.create_namespace w.clock ns) (asked_world w)
      (try_namespace k steps ns labels annotations) (allowed w.clock ns)
      (try_namespace-Tried k ns labels annotations allowed steps)

-- The counts behind a try that marks the namespace.
once_more :
    (ns j : String) (trace tail : List Event) (m : List (String × Bool))
    → flag ns m ≡ false
    → (total (is_creation j) trace ≤ (if flag j m then 1 else 0))
      × ((if flag j m then 1 else 0) ≤ total (is_call j) trace)
    → total (is_creation j) tail ≤ one ns j
    → one ns j ≤ total (is_call j) tail
    → (total (is_creation j) (trace ++ tail) ≤ (if flag j (insert ns true m) then 1 else 0))
      × ((if flag j (insert ns true m) then 1 else 0) ≤ total (is_call j) (trace ++ tail))
once_more ns j trace tail m e (few, enough) tail_few tail_enough =
    rw
      (
        total-append (is_creation j) trace tail,
        total-append (is_call j) trace tail,
        flag-insert j ns m,
      )
      (elim (Bool-cases (str_eq ns j)) [
        | inl same ↦
            let unmarked : flag j m ≡ false =
              subst (λ i. flag i m ≡ false) ((eq_iff ns j).0 same) e in
            rw same (
              omega (arith, rw unmarked at few, rw same at tail_few),
              omega (arith, rw same at tail_enough),
            )
        | inr other ↦ rw other (
          omega (arith, few, rw other at tail_few),
          omega (arith, enough, rw other at tail_enough),
        )
      ])

abbrev Creates : (World → Option (String × World)) → String → World → Type 0
Creates m ns w =
    (w' : World) × ((m w ≡ some (ns, w'))
      × (Keeps w w' × (flag ns w'.executor.created_namespaces ≡ true)))

abbrev mark : String → JobExecutor → World → World
mark ns ex w = record w {
  executor = record ex { created_namespaces = insert ns true ex.created_namespaces };
}

create_namespace-Creates :
    (k : Cluster) (ns : String) (labels annotations : Labels) (w : World)
    → IsAllowed k
    → IsOnce w
    → Creates (create_namespace k ns labels annotations) ns w
unfolding create_namespace Tried
create_namespace-Creates k ns labels annotations w allowed h =
    elim (Bool-cases (flag ns w.executor.created_namespaces)) [
      | inl e ↦ (w, (rw e refl, ((h, (refl, λ j f. f)), e)))
      | inr e ↦
          let m = w.executor.created_namespaces in
          let (found, w', runs, same, tail, longer, few, enough) =
            try_namespace-Tried k ns labels annotations allowed namespace_steps w in
          (
            mark ns w.executor w',
            (
              rw e (
                  >>=_at (try_namespace k namespace_steps ns labels annotations)
                    (λ found.
                      set_executor (record w.executor { created_namespaces = insert ns true m })
                      >> pure ns)
                    runs),
              (
                (
                  (λ j. rw longer (once_more ns j w.trace tail m e (h j) (few j) (enough j))),
                  (refl, λ j f. flag-insert j ns m ∙ still (str_eq ns j) f),
                ),
                flag-insert ns ns m ∙ still_self,
              ),
            ),
          )
    ]
  where
    still : (b : Bool) {c : Bool} → c ≡ true → ◌≡◌ {A = Bool} (if b then true else c) true
    still true f = refl
    still false f = f

    still_self :
        ◌≡◌ {A = Bool} (if str_eq ns ns then true else flag ns w.executor.created_namespaces) true
    still_self = rw (eq_refl ns) refl

-- The namespace of an iteration counts as created.
abbrev pub IsMade : JobExecutor → World → ℕ → Type 0
IsMade ex w i =
    (ns : String) × ((generate_namespace ex i ≡ some ns)
      × (flag ns w.executor.created_namespaces ≡ true))

generate_namespace-some :
    (ex : JobExecutor) (i : ℕ)
    → ex.job.iterations_per_namespace ≢ pos 0
    → (ns : String) × (generate_namespace ex i ≡ some ns)
unfolding generate_namespace quot
generate_namespace-some ex i h = elim (Bool-cases (eqb_ℤ ex.job.iterations_per_namespace (pos 0))) [
  | inl e ↦ absurd (h (ground (arith, eq_of_parts ex.job.iterations_per_namespace (pos 0))))
  | inr e ↦ (
    numbered ex.job.namespace (quot_ℤ (pos i) ex.job.iterations_per_namespace),
    rw (generate_namespace, quot, e) refl,
  )
]

generate_namespace-job :
    (a b : JobExecutor) (i : ℕ) → a.job ≡ b.job → generate_namespace a i ≡ generate_namespace b i
unfolding generate_namespace
generate_namespace-job a b i e = rw e refl

namespace_of-some :
    (i : ℕ) (ns : String) (w : World)
    → generate_namespace w.executor i ≡ some ns
    → namespace_of i w ≡ some (ns, w)
unfolding namespace_of
namespace_of-some i ns w e = ground (arith, e)

IsMade-job :
    (a b : JobExecutor) (w : World) (is : List ℕ)
    → a.job ≡ b.job
    → All (IsMade a w) is
    → All (IsMade b w) is
IsMade-job a b w [] e h = tt
IsMade-job a b w (i ∷ is) e h =
    ((h.0.0, (generate_namespace-job b a i (sym e) ∙ h.0.1.0, h.0.1.1)), IsMade-job a b w is e h.1)

create_iterations-Keeps :
    (k : Cluster) (is : List ℕ) (labels annotations : Labels) (w : World)
    → IsAllowed k
    → w.executor.job.iterations_per_namespace ≢ pos 0
    → IsOnce w
    → (w' : World) × ((create_iterations k is labels annotations w ≡ some (tt, w'))
        × (Keeps w w' × All (IsMade w.executor w') is))
unfolding create_iterations
create_iterations-Keeps k [] labels annotations w allowed h once =
    (w, (refl, ((once, (refl, λ j f. f)), tt)))
create_iterations-Keeps k (i ∷ is) labels annotations w allowed h once =
    let name = generate_namespace-some w.executor i h in
    let made = create_namespace-Creates k name.0 labels annotations w allowed once in
    let w1 = made.0 in
    let job_same = made.1.1.0.1.0 in
    let later =
      create_iterations-Keeps k is labels annotations w1 allowed
        (subst (λ (j : Job). j.iterations_per_namespace ≢ pos 0) (sym job_same) h) made.1.1.0.0 in
    (
      later.0,
      (
        >>=_at (namespace_of i) _ (namespace_of-some i name.0 w name.1)
            ∙ >>=_at (create_namespace k name.0 labels annotations) _ made.1.0
            ∙ later.1.0,
        (
          (
            later.1.1.0.0,
            (later.1.1.0.1.0 ∙ job_same, λ j f. later.1.1.0.1.1 j (made.1.1.0.1.1 j f)),
          ),
          (
            (name.0, (name.1, later.1.1.0.1.1 name.0 made.1.1.1)),
            IsMade-job w1.executor w.executor later.0 is job_same later.1.1.1,
          ),
        ),
      ),
    )

-- Making the namespaces of iterations ends without a panic. Then each of these namespaces counts as
-- created, and still for each namespace that counts as created there has been a call to create it, at
-- most one call has made it, and no call has made another one. The conditions: it was so before, the
-- cluster forbids no creation, and iterationsPerNamespace is not 0.
pub create_iterations-IsOnce :
    (k : Cluster) (is : List ℕ) (labels annotations : Labels) (w : World)
    → IsAllowed k
    → w.executor.job.iterations_per_namespace ≢ pos 0
    → IsOnce w
    → (w' : World) × ((create_iterations k is labels annotations w ≡ some (tt, w'))
        × (IsOnce w' × All (IsMade w.executor w') is))
create_iterations-IsOnce k is labels annotations w allowed h once =
    let made = create_iterations-Keeps k is labels annotations w allowed h once in
    (made.0, (made.1.0, (made.1.1.0.0, made.1.1.1)))
